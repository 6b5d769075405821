-- ===== src/Gate/Written.antt =====
-- Which tokens are read from a file that was written with them.
use sudowhat.Prelude.{
  refl, ℕ, [], ◌∷◌, ◌≡◌, inl, inr, sym, ap, ap₂, ◌∙◌, true, false, Text, List, Bool, is_empty,
  Bool-cases, if◌then◌else◌, ◌&&◌, ◌++◌, All, ◌≢◌, ◌⊎◌, append-nil,
}
use sudowhat.Gate.Lines.{trim, trim_front, push_front, split_on, trim_back, tokens_of}

module _ (f : ℕ → Bool) where
  abbrev first : List Text → Text
  first [] = []
  first (s ∷ parts) = s

  abbrev others : List Text → List Text
  others [] = []
  others (s ∷ parts) = parts

  first-push_front : (c : ℕ) (parts : List Text) → first (push_front c parts) ≡ c ∷ first parts
  first-push_front c [] = refl
  first-push_front c (s ∷ parts) = refl

  others-push_front : (c : ℕ) (parts : List Text) → others (push_front c parts) ≡ others parts
  others-push_front c [] = refl
  others-push_front c (s ∷ parts) = refl

  tokens_of-first :
      (parts : List Text)
      → tokens_of parts ≡ (
          if is_empty (first parts)
          then tokens_of (others parts)
          else first parts ∷ tokens_of (others parts))
  unfolding tokens_of
  tokens_of-first [] = refl
  tokens_of-first (s ∷ parts) = refl

  abbrev pub words : Text → List Text
  words s = tokens_of (split_on f s)

  split_on-word :
      (c : ℕ) (s : Text) → f c ≡ false → split_on f (c ∷ s) ≡ push_front c (split_on f s)
  unfolding split_on
  split_on-word c s e = rw e refl

  split_on-space : (c : ℕ) (s : Text) → f c ≡ true → split_on f (c ∷ s) ≡ [] ∷ split_on f s
  unfolding split_on
  split_on-space c s e = rw e refl

  -- Two texts of the same tokens, with the same one in front.
  abbrev Same : Text → Text → Type 0
  Same a b =
      (first (split_on f a) ≡ first (split_on f b))
      × (tokens_of (others (split_on f a)) ≡ tokens_of (others (split_on f b)))

  words-Same : (a b : Text) → Same a b → words a ≡ words b
  words-Same a b (heads, rests) =
      tokens_of-first (split_on f a)
      ∙ ap₂ (λ h t. if is_empty h then t else h ∷ t) heads rests
      ∙ sym (tokens_of-first (split_on f b))

  Same-word : (c : ℕ) (a b : Text) → f c ≡ false → Same a b → Same (c ∷ a) (c ∷ b)
  Same-word c a b e (heads, rests) =
      rw (split_on-word c a e, split_on-word c b e)
        (
          first-push_front c (split_on f a)
              ∙ ap (λ t. c ∷ t) heads
              ∙ sym (first-push_front c (split_on f b)),
          ap tokens_of (others-push_front c (split_on f a))
              ∙ rests
              ∙ sym (ap tokens_of (others-push_front c (split_on f b))),
        )

  Same-space : (c : ℕ) (a b : Text) → f c ≡ true → Same a b → Same (c ∷ a) (c ∷ b)
  Same-space c a b e same =
      rw (split_on-space c a e, split_on-space c b e) (refl, words-Same a b same)

  Same-gone : (c : ℕ) (s : Text) → f c ≡ true → Same [] s → Same [] (c ∷ s)
  unfolding split_on tokens_of
  Same-gone c s e same = rw e (refl, words-Same [] s same)

  -- What `trim_back` takes off leaves the tokens.
  trim_back-Same : (s : Text) → Same (trim_back f s) s
  unfolding trim_back
  trim_back-Same [] = (refl, refl)
  trim_back-Same (c ∷ s) =
      let same = trim_back-Same s in
      elim (Bool-cases (f c)) [
        | inr word ↦ rw word (Same-word c (trim_back f s) s word same)
        | inl space ↦ trimmed space (trim_back f s) same
      ]
    where
      trimmed :
          f c ≡ true
          → (r : Text) → Same r s
          → Same (if f c && is_empty r then [] else c ∷ r) (c ∷ s)
      trimmed space [] same = rw space (Same-gone c s space same)
      trimmed space (b ∷ r) same = rw space (Same-space c (b ∷ r) s space same)

  abbrev pub IsSpace : ℕ → Type 0
  IsSpace c = f c ≡ true

  abbrev pub IsWord : ℕ → Type 0
  IsWord c = f c ≡ false

  -- A component ends at the first separator behind it.
  pub split_on-append :
      (t : Text) (c : ℕ) (s : Text)
      → All IsWord t
      → f c ≡ true
      → split_on f (t ++ c ∷ s) ≡ t ∷ split_on f s
  split_on-append [] c s h e = split_on-space c s e
  split_on-append (b ∷ t) c s (hb, ht) e =
      split_on-word b (t ++ c ∷ s) hb ∙ ap (push_front b) (split_on-append t c s ht e)

  pub split_on-whole : (t : Text) → All IsWord t → split_on f t ≡ t ∷ []
  unfolding split_on
  split_on-whole [] h = refl
  split_on-whole (b ∷ t) (hb, ht) = rw hb (ap (push_front b) (split_on-whole t ht))

  pub words-spaces : (pad s : Text) → All IsSpace pad → words (pad ++ s) ≡ words s
  unfolding tokens_of
  words-spaces [] s h = refl
  words-spaces (c ∷ pad) s (hc, h) =
      ap tokens_of (split_on-space c (pad ++ s) hc) ∙ words-spaces pad s h

  tokens_of-cons :
      (t : Text) (parts : List Text) → t ≢ [] → tokens_of (t ∷ parts) ≡ t ∷ tokens_of parts
  unfolding tokens_of
  tokens_of-cons [] parts h = absurd (h refl)
  tokens_of-cons (b ∷ t) parts h = refl

  -- A token is read whole, if white space or the end stands behind it.
  words-token :
      (t gap s : Text)
      → t ≢ []
      → All IsWord t
      → All IsSpace gap
      → (gap ≢ []) ⊎ (s ≡ [])
      → words (t ++ (gap ++ s)) ≡ t ∷ words s
  unfolding tokens_of split_on
  words-token t (c ∷ gap) s some_token word (hc, h) end =
      ap tokens_of (split_on-append t c (gap ++ s) word hc)
      ∙ tokens_of-cons t (split_on f (gap ++ s)) some_token
      ∙ ap (λ ts. t ∷ ts) (words-spaces gap s h)
  words-token t [] s some_token word h (inl some_gap) = absurd (some_gap refl)
  words-token t [] s some_token word h (inr e) = rw e (
      ap words (append-nil t)
      ∙ ap tokens_of (split_on-whole t word)
      ∙ tokens_of-cons t [] some_token)

  -- Tokens, each with what stands behind it.
  abbrev pub spaced : List (Text × Text) → Text
  spaced [] = []
  spaced ((t, gap) ∷ ts) = t ++ (gap ++ spaced ts)

  abbrev pub AreSpaced : List (Text × Text) → Type 0
  AreSpaced [] = Unit
  AreSpaced ((t, gap) ∷ ts) =
      (t ≢ []) × All IsWord t × All IsSpace gap × ((gap ≢ []) ⊎ (ts ≡ [])) × AreSpaced ts

  abbrev pub tokens : List (Text × Text) → List Text
  tokens [] = []
  tokens ((t, gap) ∷ ts) = t ∷ tokens ts

  pub words-spaced : (ts : List (Text × Text)) → AreSpaced ts → words (spaced ts) ≡ tokens ts
  unfolding split_on tokens_of
  words-spaced [] h = refl
  words-spaced ((t, gap) ∷ ts) (some_token, word, space, end, rest) =
      words-token t gap (spaced ts) some_token word space (ended end)
      ∙ ap (λ us. t ∷ us) (words-spaced ts rest)
    where
      ended : (gap ≢ []) ⊎ (ts ≡ []) → (gap ≢ []) ⊎ (spaced ts ≡ [])
      ended (inl e) = inl e
      ended (inr e) = inr (ap spaced e)

  trim_front-spaces : (pad s : Text) → All IsSpace pad → trim_front f (pad ++ s) ≡ trim_front f s
  unfolding trim_front
  trim_front-spaces [] s h = refl
  trim_front-spaces (c ∷ pad) s (hc, h) = rw hc (trim_front-spaces pad s h)

  trim_front-word : (c : ℕ) (s : Text) → f c ≡ false → trim_front f (c ∷ s) ≡ c ∷ s
  unfolding trim_front
  trim_front-word c s e = rw e refl

  trim_back-word : (c : ℕ) (s : Text) → f c ≡ false → trim_back f (c ∷ s) ≡ c ∷ trim_back f s
  unfolding trim_back
  trim_back-word c s e = rw e refl

  -- Trimming takes the white space in front, and keeps a text that begins with a word.
  pub trim-spaces :
      (pad : Text) (c : ℕ) (s : Text)
      → All IsSpace pad
      → f c ≡ false
      → trim f (pad ++ c ∷ s) ≡ c ∷ trim_back f s
  unfolding trim
  trim-spaces pad c s h e =
      ap (trim_back f) (trim_front-spaces pad (c ∷ s) h ∙ trim_front-word c s e)
      ∙ trim_back-word c s e

  pub trim-blank : (pad : Text) → All IsSpace pad → trim f pad ≡ []
  unfolding trim trim_front trim_back
  trim-blank [] h = refl
  trim-blank (c ∷ pad) (hc, h) = rw hc (trim-blank pad h)

  pub words-trim_back : (c : ℕ) (s : Text) → f c ≡ false → words (c ∷ trim_back f s) ≡ words (c ∷ s)
  words-trim_back c s e =
      words-Same (c ∷ trim_back f s) (c ∷ s) (Same-word c (trim_back f s) s e (trim_back-Same s))
