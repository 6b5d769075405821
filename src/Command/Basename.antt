-- ===== src/Command/Basename.antt =====
-- `last_path_component` against its description, and what `command_tokens` drops.
use sudowhat.Command.{is_slash_byte, slash_at, trim_end, last_segment, last_path_component}
use mathlib.Core.Path.{subst}
use mathlib.Core.List.{cons-ne-nil}
use sudowhat.Prelude.Index.{All-last, last-cases}
use sudowhat.Prelude.Index.{
  take-append_left, drop-append_left, get_elem?-append_right, get_elem?-All, rposition-none,
  rposition-last,
}
use sudowhat.Prelude.{
  ℕ, zero, suc, ◌≡◌, ◌≢◌, refl, ap, ◌∙◌, false, [], ◌∷◌, ◌++◌, append_assoc, Bytes, arith, All, ◌+◌,
  ◌≤◌, length, drop, rposition, some, get_elem?, length-append, if◌then◌else◌,
}

abbrev pub IsNoSlash : ℕ → Type 0
IsNoSlash b = is_slash_byte b ≡ false

abbrev pub IsSlash : ℕ → Type 0
IsSlash b = b ≡ b'/'

trim_end-suc :
    (p : Bytes) (e b : ℕ)
    → get_elem? p e ≡ some b
    → trim_end p (suc e) ≡ (if is_slash_byte b then trim_end p e else suc e)
unfolding trim_end
trim_end-suc p e b h = rw (h, slash_at)

-- The loop steps back over slashes, down to the byte that is none.
trim_end-IsSlash :
    (q slashes : Bytes) (k : ℕ)
    → All IsSlash slashes
    → k ≤ length slashes
    → trim_end (q ++ slashes) (k + length q) ≡ trim_end (q ++ slashes) (length q)
trim_end-IsSlash q slashes zero h le = let e : 0 + length q ≡ length q = omega arith in rw e
trim_end-IsSlash q slashes (suc k) h le =
    let e : suc k + length q ≡ suc (k + length q) = omega arith in
    let (b, at, slash) = get_elem?-All slashes k h (omega arith) in
    let here = get_elem?-append_right q slashes k ∙ at ∙ ap some slash in
    rw (e, trim_end-suc (q ++ slashes) (k + length q) b'/' here)
      (trim_end-IsSlash q slashes k h (omega arith))

trim_end-stop :
    (q slashes : Bytes) (c : ℕ)
    → IsNoSlash c
    → trim_end ((q ++ c ∷ []) ++ slashes) (length (q ++ c ∷ [])) ≡ length (q ++ c ∷ [])
trim_end-stop q slashes c h =
    let e : length (q ++ c ∷ []) ≡ suc (0 + length q) = omega (arith, length-append q (c ∷ [])) in
    let here = get_elem?-append_right q (c ∷ slashes) 0 in
    rw (e, append_assoc) (trim_end-suc (q ++ c ∷ slashes) (0 + length q) c here ∙ rw h)

trim_end-length :
    (q slashes : Bytes) (c : ℕ)
    → IsNoSlash c
    → All IsSlash slashes
    → trim_end ((q ++ c ∷ []) ++ slashes) (length ((q ++ c ∷ []) ++ slashes)) ≡ length (q ++ c ∷ [])
trim_end-length q slashes c h hs =
    let e : length ((q ++ c ∷ []) ++ slashes) ≡ length slashes + length (q ++ c ∷ []) =
      omega (arith, length-append (q ++ c ∷ []) slashes) in
    rw e (
      trim_end-IsSlash (q ++ c ∷ []) slashes (length slashes) hs (omega arith)
      ∙ trim_end-stop q slashes c h)

last_segment-some :
    (t : Bytes) (i : ℕ) → rposition is_slash_byte t ≡ some i → last_segment t ≡ drop (i + 1) t
unfolding last_segment
last_segment-some t i h = ground arith

last_segment-IsNoSlash : (base : Bytes) → All IsNoSlash base → last_segment base ≡ base
unfolding last_segment
last_segment-IsNoSlash base h = ground (arith, rposition-none is_slash_byte base h)

last_segment-slash :
    (dir base : Bytes) → All IsNoSlash base → last_segment (dir ++ b'/' ∷ base) ≡ base
last_segment-slash dir base h =
    let e : length dir + 1 ≡ length (dir ++ b'/' ∷ []) =
      omega (arith, length-append dir (b'/' ∷ [])) in
    last_segment-some _ _ (rposition-last is_slash_byte dir b'/' base refl h)
    ∙ rw (e, ← append_assoc dir (b'/' ∷ []) base) (drop-append_left (dir ++ b'/' ∷ []) base)

-- A path with slashes behind it loses them.
last_path_component-trim :
    (q slashes : Bytes) (c : ℕ)
    → IsNoSlash c
    → All IsSlash slashes
    → last_path_component ((q ++ c ∷ []) ++ slashes) ≡ last_segment (q ++ c ∷ [])
unfolding last_path_component
last_path_component-trim q slashes c h hs = ground (
  arith,
  trim_end-length q slashes c h hs,
  length-append (q ++ c ∷ []) slashes,
  length-append q (c ∷ []),
  take-append_left (q ++ c ∷ []) slashes,
)

last_path_component-file :
    (dir base slashes : Bytes) (c : ℕ)
    → All IsNoSlash (base ++ c ∷ [])
    → All IsSlash slashes
    → last_path_component ((dir ++ b'/' ∷ (base ++ c ∷ [])) ++ slashes) ≡ base ++ c ∷ []
last_path_component-file dir base slashes c h hs =
    let hc = All-last IsNoSlash base c h in
    rw
      (
        ← append_assoc dir (b'/' ∷ base) (c ∷ []),
        last_path_component-trim (dir ++ b'/' ∷ base) slashes c hc hs,
        append_assoc dir (b'/' ∷ base) (c ∷ []),
      )
      (last_segment-slash dir (base ++ c ∷ []) h)

last_path_component-bare :
    (base slashes : Bytes) (c : ℕ)
    → All IsNoSlash (base ++ c ∷ [])
    → All IsSlash slashes
    → last_path_component ((base ++ c ∷ []) ++ slashes) ≡ base ++ c ∷ []
last_path_component-bare base slashes c h hs =
    last_path_component-trim base slashes c (All-last IsNoSlash base c h) hs
    ∙ last_segment-IsNoSlash (base ++ c ∷ []) h

last_path_component-root :
    (slashes : Bytes) → slashes ≢ [] → All IsSlash slashes → last_path_component slashes ≡ b'/' ∷ []
unfolding last_path_component trim_end
last_path_component-root [] ne h = absurd (ne refl)
last_path_component-root (b ∷ bs) ne h =
    let e : length (b ∷ bs) ≡ length (b ∷ bs) + 0 = omega arith in
    ground (arith, rw (← e) at (trim_end-IsSlash [] (b ∷ bs) (length (b ∷ bs)) h (omega arith)))

-- `last_path_component` on each shape of a path: a name behind a directory, a name alone, each
-- with any number of slashes at its end, gives the name; slashes alone give one slash; and the
-- empty path the empty name.
pub last_path_component_cases :
    (dir name slashes : Bytes)
    → name ≢ []
    → All IsNoSlash name
    → All IsSlash slashes
    → (last_path_component ((dir ++ b'/' ∷ name) ++ slashes) ≡ name)
      × (last_path_component (name ++ slashes) ≡ name)
      × (last_path_component (b'/' ∷ slashes) ≡ b'/' ∷ [])
      × (last_path_component [] ≡ [])
last_path_component_cases dir name slashes ne h hs =
    let (base, c, e) = last-cases name ne in
    let h' = subst (All IsNoSlash) e h in
    (
      rw e (last_path_component-file dir base slashes c h' hs),
      rw e (last_path_component-bare base slashes c h' hs),
      last_path_component-root (b'/' ∷ slashes) (cons-ne-nil b'/' slashes) (refl, hs),
      unfold last_path_component in refl,
    )
