-- ===== src/Mac/Fallback.antt =====
-- `sw_audit_command_line_with` of plugin/sudowhat_audit.m, where the coloured rendering is refused.
use sudowhat.Ffi.{Written, sw_escape_ok}
use sudowhat.Mac.Values.{
  Field, Allocator, Renderer, colored, audit_render, command_line_with, or_plain, string_text,
}
use sudowhat.Sheet.Value.{cell, two_calls, filled}
use sudowhat.Prelude.{
  ◌≡◌, ◌≢◌, ◌⊎◌, ap, List, [], ◌∷◌, ℕ, none, some, Option, true, false, Bytes, inl, inr, refl,
  Bool-cases, if◌then◌else◌, length, ◌+◌, ◌==◌, ◌&&◌, ==_iff, map,
}

-- The renderer never says that it has written the text.
abbrev pub Fails : Renderer → Type 0
Fails render =
    (path : Option Bytes) (path_len : ℕ) (argv : Option (List (Option Bytes)))
    (argv_lens : Option (List ℕ)) (argv_count : ℕ) (out : Option Bytes) (out_cap : ℕ)
    (needed : Option ℕ)
    → (render path path_len argv argv_lens argv_count out out_cap needed).code ≢ sw_escape_ok

two_calls-refused :
    (call : Option Bytes → ℕ → Written) (malloc : ℕ → Option Bytes)
    → ((n : ℕ) → malloc n ≡ none)
    → two_calls call malloc ≡ none
unfolding two_calls
two_calls-refused call malloc h =
    let needed = cell (call none 0).needed in
    ap
      (λ (m : Option Bytes). elim m [
        | some buf ↦ filled (call (some buf) (needed + 1))
        | none ↦ none
      ])
      (h (needed + 1))

filled-failed : (w : Written) → w.code ≢ sw_escape_ok → filled w ≡ none
unfolding filled
filled-failed w h = elim (Bool-cases (w.code == sw_escape_ok)) [
  | inl e ↦ absurd (h ((==_iff w.code sw_escape_ok).0 e))
  | inr e ↦ rw (e, filled) refl
]

two_calls-failed :
    (call : Option Bytes → ℕ → Written) (malloc : ℕ → Option Bytes)
    → ((buf : Option Bytes) (cap : ℕ) → (call buf cap).code ≢ sw_escape_ok)
    → two_calls call malloc ≡ none
unfolding two_calls
two_calls-failed call malloc h = at (malloc (cell (call none 0).needed + 1))
  where
    at :
        (memory : Option Bytes)
        → (elim memory [
          | some buf ↦ filled (call (some buf) (cell (call none 0).needed + 1))
          | none ↦ none
        ])
          ≡ none
    at none = refl
    at (some buf) =
        filled-failed (call (some buf) (cell (call none 0).needed + 1))
          (h (some buf) (cell (call none 0).needed + 1))

-- The calls of a renderer.
abbrev rendering : Renderer → Bytes → List Bytes → Option Bytes → ℕ → Written
rendering render path words buf cap =
    render (some path) (length path) (some (map some words)) (some (map length words))
      (length words) buf cap (some 0)

audit_render-failed :
    (mem : Allocator) (render : Renderer) (path : Bytes) (words : List Bytes)
    → ((n : ℕ) → mem.malloc colored n ≡ none) ⊎ Fails render
    → audit_render mem colored render path words ≡ none
unfolding audit_render
audit_render-failed mem render path words (inl refused) =
    ap string_text (two_calls-refused (rendering render path words) (mem.malloc colored) refused)
audit_render-failed mem render path words (inr fails) = ap string_text (
    two_calls-failed (rendering render path words) (mem.malloc colored) (λ buf cap.
      fails (some path) (length path) (some (map some words)) (some (map length words))
        (length words) buf cap (some 0)))

-- Where no buffer is granted for the coloured text, or the coloured renderer fails, the command line
-- is what it is with no colour: the plain one, or none where that cannot be made either. This holds
-- for any two renderers, and whatever else is granted.
pub command_line_with-fallback :
    (mem : Allocator) (colored_fn plain_fn : Renderer) (words : List Bytes)
    → ((n : ℕ) → mem.malloc colored n ≡ none) ⊎ Fails colored_fn
    → command_line_with mem colored_fn plain_fn words true
      ≡ command_line_with mem colored_fn plain_fn words false
unfolding command_line_with
command_line_with-fallback mem colored_fn plain_fn [] h = refl
command_line_with-fallback mem colored_fn plain_fn (a0 ∷ words) h =
    ap
      (λ t.
        if mem.argv (length (a0 ∷ words)) && mem.lens (length (a0 ∷ words))
        then or_plain t (audit_render mem Field.plain plain_fn a0 (a0 ∷ words))
        else none)
      (audit_render-failed mem colored_fn a0 (a0 ∷ words) h)
