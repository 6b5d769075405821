-- ===== src/Gate/Question.antt =====
-- How often the question is asked, and which reply decides.

use sudowhat.Color.Terminal.{strip_sgr}
use sudowhat.Prelude.{
  refl, [], ◌∷◌, ◌≡◌, ◌⊎◌, true, map, Text, some, Bool, List, false, Option, none, inr, ◌++◌, inl,
  All, ◌≢◌, replicate, length, ap,
}
use sudowhat.Gate.Answer.{
  reask_prompt, confirm_prompt, unknown, round_answer, ask_run_confirm, ask_from, Reply, Answer,
}

-- A reply that is not an answer.
abbrev pub IsUnknown : Reply → Type 0
IsUnknown r = round_answer r ≡ unknown

abbrev pub is_yes : Answer → Bool
is_yes Answer.yes = true
is_yes Answer.no = false
is_yes unknown = false

-- The first reply that is an answer decides, or the end of input does; the prompt is shown once, and
-- the other one again after each reply that is no answer.
abbrev pub Decided : Text → Text → List Reply → List Text × Bool → Type 0
Decided again prompt replies result =
    ((before : List Reply) × (r : Reply) × (behind : List Reply) × (replies ≡ before ++ r ∷ behind)
      × All IsUnknown before
      × (round_answer r ≢ unknown)
      × (result ≡ (prompt ∷ replicate (length before) again, is_yes (round_answer r))))
    ⊎ (All IsUnknown replies × (result ≡ (prompt ∷ replicate (length replies) again, false)))

ask_from-Decided :
    (again prompt : Text) (replies : List Reply)
    → Decided again prompt replies (ask_from again prompt replies)
unfolding ask_from
ask_from-Decided again prompt [] = inr (tt, refl)
ask_from-Decided again prompt (r ∷ replies) =
    decided (ask_from-Decided again again replies) (round_answer r) refl
  where
    decided :
        Decided again again replies (ask_from again again replies)
        → (a : Answer) → round_answer r ≡ a
        → Decided again prompt (r ∷ replies) (ask_from again prompt (r ∷ replies))
    decided rest Answer.yes e = inl ([], r, replies, refl, tt, (λ u. cc), rw (ask_from, e) refl)
    decided rest Answer.no e = inl ([], r, replies, refl, tt, (λ u. cc), rw (ask_from, e) refl)
    decided rest unknown e = elim rest [
      | inl (before, s, behind, split, skipped, answer, same) ↦ inl (
        r ∷ before,
        s,
        behind,
        ap (λ rs. r ∷ rs) split,
        (e, skipped),
        answer,
        rw (ask_from, e, same) refl,
      )
      | inr (skipped, same) ↦ inr ((e, skipped), rw (ask_from, e, same) refl)
    ]

-- The question is asked once, and again after each reply that is not an answer; the first reply
-- that is one decides, and the end of input declines. Without a conversation nothing is asked, and
-- the command is declined.
pub ask_run_confirm-Decided :
    (color blank_first : Bool) (replies : List Reply)
    → (ask_run_confirm color blank_first none ≡ ([], false))
      × Decided
          (reask_prompt color)
          (confirm_prompt color blank_first)
          replies
          (ask_run_confirm color blank_first (some replies))
unfolding ask_run_confirm
ask_run_confirm-Decided color blank_first replies =
    (refl, ask_from-Decided (reask_prompt color) (confirm_prompt color blank_first) replies)

ask_from-map :
    (f : Text → Text) (again prompt : Text) (replies : List Reply)
    → (map f (ask_from again prompt replies).0 ≡ (ask_from (f again) (f prompt) replies).0)
      × ((ask_from again prompt replies).1 ≡ (ask_from (f again) (f prompt) replies).1)
unfolding ask_from
ask_from-map f again prompt [] = (refl, refl)
ask_from-map f again prompt (r ∷ replies) =
    decided (ask_from-map f again again replies) (round_answer r) refl
  where
    decided :
        (map f (ask_from again again replies).0 ≡ (ask_from (f again) (f again) replies).0)
          × ((ask_from again again replies).1 ≡ (ask_from (f again) (f again) replies).1)
        → (a : Answer) → round_answer r ≡ a
        → (map f (ask_from again prompt (r ∷ replies)).0
            ≡ (ask_from (f again) (f prompt) (r ∷ replies)).0)
          × ((ask_from again prompt (r ∷ replies)).1
              ≡ (ask_from (f again) (f prompt) (r ∷ replies)).1)
    decided rest Answer.yes e = rw (ask_from, e) (refl, refl)
    decided rest Answer.no e = rw (ask_from, e) (refl, refl)
    decided rest unknown e = rw (ask_from, e) (ap (λ ps. f prompt ∷ ps) (rest.0), rest.1)

-- Colour changes neither the answer nor what the question says: without its sequences, each prompt
-- is the plain one.
pub ask_run_confirm-color :
    (blank_first : Bool) (conversation : Option (List Reply))
    → (map strip_sgr (ask_run_confirm true blank_first conversation).0
        ≡ (ask_run_confirm false blank_first conversation).0)
      × ((ask_run_confirm true blank_first conversation).1
          ≡ (ask_run_confirm false blank_first conversation).1)
unfolding ask_run_confirm strip_sgr
ask_run_confirm-color blank_first none = (refl, refl)
ask_run_confirm-color true (some replies) = ask_from-map strip_sgr _ _ replies
ask_run_confirm-color false (some replies) = ask_from-map strip_sgr _ _ replies
