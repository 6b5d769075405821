-- ===== src/Gate/Reply.antt =====
-- What counts as an answer: `sw_confirm_answer` of plugin/sudowhat_approval.m.

use sudowhat.Prelude.{
  ◌&&◌, is_empty, Bool-cases, sym, ◌∙◌, All-map, All-append, refl, [], ◌∷◌, ◌≡◌, ◌↔◌, ◌⊎◌, true,
  Bytes, codes, ℕ, ◌+◌, within, map, if◌then◌else◌, arith, some, false, inr, ◌++◌, inl, All, ap,
}
use sudowhat.Gate.Lines.{trim, trim_front, trim_back}
use sudowhat.Gate.Written.{IsSpace, trim-spaces, trim-blank}
use mathlib.Core.Path.{subst}
use sudowhat.Gate.Answer.{confirm_answer, Answer, is_blank, classify}

-- The small letter of a letter.
abbrev pub lower : ℕ → ℕ
lower c = if within b'A' b'Z' c then c + 32 else c

classify-yes :
    (w : Bytes)
    → (classify w ≡ Answer.yes) ↔ ((map lower w ≡ codes "y") ⊎ (map lower w ≡ codes "yes"))
classify-yes [] = ground arith
classify-yes (a ∷ []) = ground arith
classify-yes (a ∷ b ∷ []) = ground arith
classify-yes (a ∷ b ∷ c ∷ []) = ground arith
classify-yes (a ∷ b ∷ c ∷ d ∷ w) = ground arith

classify-no :
    (w : Bytes)
    → (classify w ≡ Answer.no)
      ↔ ((map lower w ≡ []) ⊎ ((map lower w ≡ codes "n") ⊎ (map lower w ≡ codes "no")))
classify-no [] = ground arith
classify-no (a ∷ []) = ground arith
classify-no (a ∷ b ∷ []) = ground arith
classify-no (a ∷ b ∷ c ∷ []) = ground arith
classify-no (a ∷ b ∷ c ∷ d ∷ w) = ground arith

-- A space, a tab, a carriage return or a line feed.
abbrev pub IsWhite : ℕ → Type 0
IsWhite c = (c ≡ 32) ⊎ ((c ≡ 9) ⊎ ((c ≡ 13) ⊎ (c ≡ 10)))

-- The word in capitals or small letters, with white space in front and behind, or neither.
abbrev pub Spells : Bytes → Bytes → Type 0
Spells reply word =
    (front : Bytes) × (w : Bytes) × (back : Bytes) × (reply ≡ front ++ (w ++ back))
    × All IsWhite front
    × All IsWhite back
    × (map lower w ≡ word)

is_blank-IsWhite : (c : ℕ) → is_blank c ≡ true → IsWhite c
is_blank-IsWhite c h = ground arith

IsWhite-is_blank : (c : ℕ) → IsWhite c → is_blank c ≡ true
IsWhite-is_blank c h = ground arith

abbrev IsSmall : ℕ → Type 0
IsSmall c = within b'a' b'z' c ≡ true

lower-IsSmall : (c : ℕ) → IsSmall (lower c) → is_blank c ≡ false
lower-IsSmall c h = ground arith

lower-All : (w : Bytes) → All IsSmall (map lower w) → All (λ c. is_blank c ≡ false) w
lower-All [] h = tt
lower-All (c ∷ w) h = (lower-IsSmall c h.0, lower-All w h.1)

-- What is taken off in front and behind is white space.
trim_front-split :
    (s : Bytes) → (front : Bytes) × (s ≡ front ++ trim_front is_blank s) × All IsWhite front
unfolding trim_front
trim_front-split [] = ([], refl, tt)
trim_front-split (c ∷ s) = elim (Bool-cases (is_blank c)) [
  | inl e ↦
      let (front, split, white) = trim_front-split s in
      rw e (c ∷ front, ap (λ t. c ∷ t) split, (is_blank-IsWhite c e, white))
  | inr e ↦ rw e ([], refl, tt)
]

trim_back-split :
    (s : Bytes) → (back : Bytes) × (s ≡ trim_back is_blank s ++ back) × All IsWhite back
unfolding trim_back
trim_back-split [] = ([], refl, tt)
trim_back-split (c ∷ s) = kept (trim_back is_blank s) (trim_back-split s)
  where
    kept :
        (t : Bytes)
        → (back : Bytes) × (s ≡ t ++ back) × All IsWhite back
        → (back : Bytes) × (c ∷ s ≡ (if is_blank c && is_empty t then [] else c ∷ t) ++ back)
          × All IsWhite back
    kept [] (back, split, white) = elim (Bool-cases (is_blank c)) [
      | inl e ↦ rw e (c ∷ back, ap (λ u. c ∷ u) split, (is_blank-IsWhite c e, white))
      | inr e ↦ rw e (back, ap (λ u. c ∷ u) split, white)
    ]
    kept (d ∷ t) (back, split, white) = elim (Bool-cases (is_blank c)) [
      | inl e ↦ rw e (back, ap (λ u. c ∷ u) split, white)
      | inr e ↦ rw e (back, ap (λ u. c ∷ u) split, white)
    ]

trim-Spells : (reply word : Bytes) → map lower (trim is_blank reply) ≡ word → Spells reply word
unfolding trim
trim-Spells reply word e =
    let (front, ahead, white) = trim_front-split reply in
    let (back, behind, blank) = trim_back-split (trim_front is_blank reply) in
    (front, trim is_blank reply, back, ahead ∙ ap (λ t. front ++ t) behind, white, blank, e)

-- A word of letters is what is left between white space.
trim_back-letters :
    (w back : Bytes)
    → All (λ c. is_blank c ≡ false) w
    → All (IsSpace is_blank) back
    → trim_back is_blank (w ++ back) ≡ w
unfolding trim_back
trim_back-letters [] [] hw hb = refl
trim_back-letters [] (c ∷ back) hw hb = rw (hb.0, trim_back-letters [] back tt hb.1) refl
trim_back-letters (c ∷ w) back hw hb = rw hw.0 (ap (λ t. c ∷ t) (trim_back-letters w back hw.1 hb))

trim-letters :
    (front w back : Bytes)
    → All IsWhite front
    → All IsWhite back
    → All (λ c. is_blank c ≡ false) w
    → trim is_blank (front ++ (w ++ back)) ≡ w
trim-letters front [] back hf hb hw =
    trim-blank is_blank (front ++ back)
      (All-map {P = IsWhite} IsWhite-is_blank (front ++ back) (All-append IsWhite front back hf hb))
trim-letters front (c ∷ w) back hf hb hw =
    trim-spaces is_blank front c (w ++ back) (All-map {P = IsWhite} IsWhite-is_blank front hf) hw.0
    ∙ ap (λ t. c ∷ t)
        (trim_back-letters w back hw.1 (All-map {P = IsWhite} IsWhite-is_blank back hb))

Spells-trim :
    (reply word : Bytes)
    → All IsSmall word
    → Spells reply word
    → map lower (trim is_blank reply) ≡ word
Spells-trim reply word small (front, w, back, split, hf, hb, e) =
    ap (λ r. map lower (trim is_blank r)) split
    ∙ ap (map lower)
        (trim-letters front w back hf hb (lower-All w (subst (All IsSmall) (sym e) small)))
    ∙ e

-- Yes is `y` or `yes`, no is `n`, `no` or nothing, in any case and with spaces, tabs, carriage returns
-- and line feeds around it; no other reply is an answer.
pub confirm_answer-Spells :
    (reply : Bytes)
    → ((confirm_answer (some reply) ≡ Answer.yes)
        ↔ (Spells reply (codes "y") ⊎ Spells reply (codes "yes")))
      × ((confirm_answer (some reply) ≡ Answer.no)
          ↔ (Spells reply [] ⊎ (Spells reply (codes "n") ⊎ Spells reply (codes "no"))))
unfolding confirm_answer
confirm_answer-Spells reply =
    let w = trim is_blank reply in
    (
      (
        λ h. elim ((classify-yes w).0 h) [
          | inl e ↦ inl (trim-Spells reply (codes "y") e)
          | inr e ↦ inr (trim-Spells reply (codes "yes") e)
        ],
        λ h. (classify-yes w).1 (elim h [
          | inl s ↦ inl (Spells-trim reply (codes "y") (refl, tt) s)
          | inr s ↦ inr (Spells-trim reply (codes "yes") (refl, (refl, (refl, tt))) s)
        ]),
      ),
      (
        λ h. elim ((classify-no w).0 h) [
          | inl e ↦ inl (trim-Spells reply [] e)
          | inr (inl e) ↦ inr (inl (trim-Spells reply (codes "n") e))
          | inr (inr e) ↦ inr (inr (trim-Spells reply (codes "no") e))
        ],
        λ h. (classify-no w).1 (elim h [
          | inl s ↦ inl (Spells-trim reply [] tt s)
          | inr (inl s) ↦ inr (inl (Spells-trim reply (codes "n") (refl, tt) s))
          | inr (inr s) ↦ inr (inr (Spells-trim reply (codes "no") (refl, (refl, tt)) s))
        ]),
      ),
    )
