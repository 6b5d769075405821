-- ===== src/Escape/Opens.antt =====
-- What the drawn text of decoded values begins with, for `begins_escape`.
use sudowhat.Escape.Clean.{ascii-IsVisible, IsHexDigit-IsVisible, IsVisible}
use sudowhat.Escape.{is_hidden, begins_escape, piece, pieces_of}
use sudowhat.Escape.Shape.{texts}
use sudowhat.Hex.{format_hex, is_ascii_hexdigit}
use native.Mathlib.Decide.{ℕ_discrete}
use sudowhat.Prelude.{
  Bool, ◌==◌, ◌&&◌, ◌∙◌, ap, if◌then◌else◌, ℕ, ◌≡◌, refl, true, false, [], ◌∷◌, arith, Text, List,
  ◌≢◌, ◌⊎◌, Bool-cases, inl, inr, sym, ◌++◌,
}
use sudowhat.Utf8.{Decoded, ok, err}

-- A text that would be read as the rest of an introducer.
abbrev pub opens : Text → Bool
opens (a ∷ h ∷ _) =
    if a == b'u' && h == b'{' then true else if a == b'x' then is_ascii_hexdigit h else false
opens _ = false

-- What is drawn first for a character.
abbrev drawn : ℕ → ℕ
drawn c = if is_hidden c then b'\\' else c

pub is_backslash : (c : ℕ) (b : Bool) → (c == b'\\' && b) ≡ true → c ≡ b'\\'
is_backslash c b h = ground arith

first-texts :
    (c : ℕ) (ds : List Decoded)
    → (t : Text) × (texts (pieces_of (ok c ∷ ds)) ≡ drawn c ∷ t)
      × (is_hidden c ≡ false → c ≢ b'\\' → t ≡ texts (pieces_of ds))
unfolding pieces_of piece
first-texts c ds = elim (Bool-cases (is_hidden c)) [
  | inl e ↦ rw e (_, refl, λ f. cc)
  | inr e ↦ rw e (elim (Bool-cases (c == b'\\' && begins_escape ds)) [
    | inl f ↦
        let c_is = is_backslash c (begins_escape ds) f in
        let rest = b'u' ∷ b'{' ∷ ((format_hex b'\\' ++ b'}' ∷ []) ++ texts (pieces_of ds)) in
        rw f (rest, ap (λ x. x ∷ rest) (sym c_is), λ _ ne. absurd (ne c_is))
    | inr f ↦ rw f (_, refl, λ _ _. refl)
  ])
]

opens_other : (a : ℕ) (t : Text) → a ≢ b'u' → a ≢ b'x' → opens (a ∷ t) ≡ false
opens_other a [] hu hx = refl
opens_other a (h ∷ t) hu hx = ground arith

begins_escape_other :
    (c : ℕ) (ds : List Decoded) → c ≢ b'u' → c ≢ b'x' → begins_escape (ok c ∷ ds) ≡ false
unfolding begins_escape
begins_escape_other c [] hu hx = refl
begins_escape_other c (ok h ∷ ds) hu hx = ground arith
begins_escape_other c (err h ∷ ds) hu hx = refl

-- No character of an introducer is hidden.
hidden-ne_hex : (c : ℕ) → is_hidden c ≡ true → is_ascii_hexdigit c ≡ false
hidden-ne_hex c h = elim (Bool-cases (is_ascii_hexdigit c)) [
  | inl e ↦ absurd (cc (IsHexDigit-IsVisible c e))
  | inr e ↦ e
]

backslash-ne_hex : is_ascii_hexdigit b'\\' ≡ false
unfolding is_ascii_hexdigit
backslash-ne_hex = refl

brace-IsVisible : IsVisible b'{'
brace-IsVisible = ascii-IsVisible b'{' (omega arith) (omega arith)

opens-texts_cons :
    (c : ℕ) (ds : List Decoded)
    → (c ≡ b'u') ⊎ (c ≡ b'x')
    → opens (c ∷ texts (pieces_of ds)) ≡ begins_escape (ok c ∷ ds)
opens-texts_cons c [] h = unfold pieces_of begins_escape in refl
opens-texts_cons c (err b ∷ ds) h = unfold pieces_of begins_escape is_ascii_hexdigit in ground arith
opens-texts_cons c (ok a ∷ ds) h =
    let (t, e, _) = first-texts a ds in
    rw e (
      unfold begins_escape in
      elim (Bool-cases (is_hidden a)) [
        | inl d ↦ rw d (ground (arith, hidden-ne_hex a, backslash-ne_hex, brace-IsVisible))
        | inr d ↦ rw d
      ])

introducer-cases : (c : ℕ) → ((c ≡ b'u') ⊎ (c ≡ b'x')) ⊎ ((c ≢ b'u') × (c ≢ b'x'))
introducer-cases c = elim (ℕ_discrete c b'u') [
  | yes h ↦ inl (inl h)
  | no h ↦ elim (ℕ_discrete c b'x') [ yes k ↦ inl (inr k) | no k ↦ inr (h, k) ]
]

introducer-IsVisible : (c : ℕ) → (c ≡ b'u') ⊎ (c ≡ b'x') → IsVisible c
introducer-IsVisible c h = ascii-IsVisible c (omega arith) (omega arith)

introducer-ne_backslash : (c : ℕ) → (c ≡ b'u') ⊎ (c ≡ b'x') → c ≢ b'\\'
introducer-ne_backslash c h = omega arith

drawn-ne : (c a : ℕ) → c ≢ a → b'\\' ≢ a → drawn c ≢ a
drawn-ne c a h k = ground arith

-- The texts of the pieces open as the decoded values do, so `begins_escape` sees what a reader sees.
pub opens-texts : (ds : List Decoded) → opens (texts (pieces_of ds)) ≡ begins_escape ds
opens-texts [] = unfold pieces_of begins_escape in refl
opens-texts (err b ∷ ds) = unfold pieces_of begins_escape in refl
opens-texts (ok c ∷ ds) =
    let (t, e, same) = first-texts c ds in
    rw e (elim (introducer-cases c) [
      | inl h ↦
          let v = introducer-IsVisible c h in
          rw (v, same v (introducer-ne_backslash c h)) (opens-texts_cons c ds h)
      | inr (hu, hx) ↦
          opens_other (drawn c) t (drawn-ne c b'u' hu (omega arith))
            (drawn-ne c b'x' hx (omega arith))
          ∙ sym (begins_escape_other c ds hu hx)
    ])
