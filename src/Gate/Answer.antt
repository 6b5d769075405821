-- ===== src/Gate/Answer.antt =====
-- The question `run this command? [y/N]` of plugin/sudowhat_approval.m: its texts, what counts as
-- an answer, and the loop that asks until there is one.
use sudowhat.Prelude.{
  [], ◌∷◌, ◌++◌, true, false, some, none, Bytes, Text, codes, ℕ, List, Bool, Option, ◌==◌, ◌||◌,
  ◌&&◌, if◌then◌else◌,
}
use sudowhat.Gate.Lines.{trim}

abbrev pub esc : Text → Text
esc s = 0x1B ∷ s

-- `SW_CONFIRM_QUESTION`, `SW_CONFIRM_QUESTION_STYLED` and `SW_NOT_AN_ANSWER`.
abbrev pub confirm_question : Text
confirm_question = codes "sudowhat: run this command? [y/N] "

abbrev pub confirm_question_styled : Text
confirm_question_styled =
    codes "sudowhat: "
    ++ esc (codes "[1mrun this command? [")
    ++ esc (codes "[1;34my")
    ++ esc (codes "[0m")
    ++ esc (codes "[1m/")
    ++ esc (codes "[1;34mN")
    ++ esc (codes "[0m")
    ++ esc (codes "[1m]")
    ++ esc (codes "[0m ")

abbrev pub not_an_answer : Text
not_an_answer = codes "not an answer"

-- `sw_confirm_prompt`.
abbrev pub confirm_prompt : Bool → Bool → Text
confirm_prompt color blank_first =
    if color
    then if blank_first then b'\n' ∷ confirm_question_styled else confirm_question_styled
    else if blank_first
    then b'\n' ∷ confirm_question
    else confirm_question

-- `sw_reask_prompt`.
abbrev pub reask_prompt : Bool → Text
reask_prompt color =
    if color
    then esc (codes "[33m") ++ not_an_answer ++ esc (codes "[0m\n") ++ confirm_question_styled
    else not_an_answer ++ b'\n' ∷ confirm_question

-- `sw_answer`.
pub data Answer : Type 0 where
  unknown yes no : Answer

-- What the two loops of `sw_confirm_answer` trim.
abbrev pub is_blank : ℕ → Bool
is_blank c = c == b' ' || c == b'\t' || c == b'\r' || c == b'\n'

-- The tests on the length and the letters.
abbrev pub classify : Bytes → Answer
classify [] = no
classify (a ∷ []) =
    if a == b'y' || a == b'Y' then yes else if a == b'n' || a == b'N' then no else unknown
classify (a ∷ b ∷ []) = if (a == b'n' || a == b'N') && (b == b'o' || b == b'O') then no else unknown
classify (a ∷ b ∷ c ∷ []) =
    if (a == b'y' || a == b'Y') && (b == b'e' || b == b'E') && (c == b's' || c == b'S')
    then yes
    else unknown
classify (a ∷ b ∷ c ∷ d ∷ s) = unknown

-- `sw_confirm_answer`; a null reply is `none`.
unfoldable pub confirm_answer : Option Bytes → Answer
unfolding trim
confirm_answer none = no
confirm_answer (some reply) = classify (trim is_blank reply)

-- What sudo's conversation gives for one prompt.
pub data Reply : Type 0 where
  failed : Reply
  replied : Option Bytes → Reply

-- One round of the loop: the verdict on a reply.
abbrev pub round_answer : Reply → Answer
round_answer failed = no
round_answer (replied reply) = confirm_answer reply

-- The loop of `sw_ask_run_confirm`: the prompts it shows, and its result. Behind the replies is the
-- end of input, where the conversation fails.
unfoldable pub ask_from : Text → Text → List Reply → List Text × Bool
ask_from again prompt [] = (prompt ∷ [], false)
ask_from again prompt (r ∷ replies) =
    let (prompts, run) = ask_from again again replies in
    elim (round_answer r) [
      | yes ↦ (prompt ∷ [], true)
      | no ↦ (prompt ∷ [], false)
      | unknown ↦ (prompt ∷ prompts, run)
    ]

-- `sw_ask_run_confirm`; a null conversation is `none`.
unfoldable pub ask_run_confirm : Bool → Bool → Option (List Reply) → List Text × Bool
unfolding ask_from
ask_run_confirm color blank_first none = ([], false)
ask_run_confirm color blank_first (some replies) =
    ask_from (reask_prompt color) (confirm_prompt color blank_first) replies
