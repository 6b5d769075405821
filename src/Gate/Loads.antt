-- ===== src/Gate/Loads.antt =====
-- What `verifyConfPath` of pam/SudoConfChecker.m finds in sudo.conf.
use sudowhat.Gate.Lines.{
  verify_conf, has_plugin_line, is_plugin_line, line_tokens, lines_of, pam_lines, split_on,
  is_newline,
}
use mathlib.Core.Option.{some-injective}
use sudowhat.Gate.Chain.{any_line}
use sudowhat.Prelude.{
  ◌≡◌, ◌↔◌, Text, List, Option, Bool, [], ◌∷◌, ◌++◌, true, some, none, refl, codes, ap, ap₂, ◌∙◌,
  sym, and_parts, bytes_eq_iff, Bool-cases, inl, inr, if◌then◌else◌,
}

-- Some line of the file, neither blank nor a comment, is `Plugin`, the symbol, the path, and whatever
-- options.
abbrev pub LoadsPlugin : Option Text → Text → Text → Type 0
LoadsPlugin conf symbol path =
    (before : List (List Text)) × (options : List Text) × (after : List (List Text)) × (pam_lines
        conf
      ≡ some (before ++ (codes "Plugin" ∷ symbol ∷ path ∷ options) ∷ after))

has_plugin_line-any_line :
    (symbol path : Text) (raws : List Text)
    → has_plugin_line symbol path raws ≡ any_line (is_plugin_line symbol path) (lines_of raws)
unfolding has_plugin_line lines_of
has_plugin_line-any_line symbol path [] = refl
has_plugin_line-any_line symbol path (raw ∷ raws) =
    at (line_tokens raw) (has_plugin_line-any_line symbol path raws)
  where
    at :
        (tokens : Option (List Text))
        → has_plugin_line symbol path raws ≡ any_line (is_plugin_line symbol path) (lines_of raws)
        → (elim tokens [
          | some f ↦ if is_plugin_line symbol path f then true else has_plugin_line symbol path raws
          | none ↦ has_plugin_line symbol path raws
        ])
          ≡ any_line
              (is_plugin_line symbol path)
              (elim tokens [ some f ↦ f ∷ lines_of raws | none ↦ lines_of raws ])
    at none e = e
    at (some f) e = elim (Bool-cases (is_plugin_line symbol path f)) [
      | inl is ↦ rw is refl
      | inr other ↦ rw other e
    ]

-- A line that passes stands somewhere among the lines.
any_line-split :
    (p : List Text → Bool) (lines : List (List Text))
    → any_line p lines ≡ true
    → (before : List (List Text)) × (f : List Text) × (after : List (List Text)) × (lines
        ≡ before ++ f ∷ after)
      × (p f ≡ true)
any_line-split p [] h = cc
any_line-split p (f ∷ lines) h = elim (Bool-cases (p f)) [
  | inl e ↦ ([], f, lines, refl, e)
  | inr e ↦
      let (before, g, after, split, pg) = any_line-split p lines (rw e at h) in
      (f ∷ before, g, after, ap (λ ls. f ∷ ls) split, pg)
]

any_line-found :
    (p : List Text → Bool) (before : List (List Text)) (f : List Text) (after : List (List Text))
    → p f ≡ true
    → any_line p (before ++ f ∷ after) ≡ true
any_line-found p [] f after h = rw h refl
any_line-found p (g ∷ before) f after h = elim (Bool-cases (p g)) [
  | inl e ↦ rw e refl
  | inr e ↦ rw e (any_line-found p before f after h)
]

is_plugin_line-eq :
    (symbol path : Text) (f : List Text)
    → is_plugin_line symbol path f ≡ true
    → (options : List Text) × (f ≡ codes "Plugin" ∷ symbol ∷ path ∷ options)
is_plugin_line-eq symbol path [] h = cc
is_plugin_line-eq symbol path (a ∷ []) h = cc
is_plugin_line-eq symbol path (a ∷ b ∷ []) h = cc
is_plugin_line-eq symbol path (a ∷ b ∷ c ∷ options) h =
    let (hab, hc) = and_parts _ _ h in
    let (ha, hb) = and_parts _ _ hab in
    (
      options,
      ap₂ ◌∷◌ ((bytes_eq_iff a _).0 ha)
          (ap₂ (λ x y. x ∷ y ∷ options) ((bytes_eq_iff b _).0 hb) ((bytes_eq_iff c _).0 hc)),
    )

is_plugin_line_self :
    (symbol path : Text) (options : List Text)
    → is_plugin_line symbol path (codes "Plugin" ∷ symbol ∷ path ∷ options) ≡ true
is_plugin_line_self symbol path options =
    rw ((bytes_eq_iff symbol symbol).1 refl, (bytes_eq_iff path path).1 refl) refl

pub verify_conf-LoadsPlugin :
    (conf : Option Text) (symbol path : Text)
    → (verify_conf conf symbol path ≡ true) ↔ LoadsPlugin conf symbol path
unfolding verify_conf pam_lines
verify_conf-LoadsPlugin none symbol path = (λ h. cc, λ (before, options, after, e). cc)
verify_conf-LoadsPlugin (some content) symbol path = (
  λ h.
      let (before, f, after, split, is) =
        any_line-split (is_plugin_line symbol path) (lines_of raws)
          (sym (has_plugin_line-any_line symbol path raws) ∙ h) in
      let (options, same) = is_plugin_line-eq symbol path f is in
      (before, options, after, ap some (split ∙ ap (λ g. before ++ g ∷ after) same)),
  λ (before, options, after, e).
      has_plugin_line-any_line symbol path raws
      ∙ ap (any_line (is_plugin_line symbol path)) (some-injective _ _ e)
      ∙ any_line-found (is_plugin_line symbol path) before _ after
          (is_plugin_line_self symbol path options),
)
  where
    raws : List Text
    raws = split_on is_newline content
