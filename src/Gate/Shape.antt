-- ===== src/Gate/Shape.antt =====
-- What the tests on the installed chain find: which lines a file has that lets a caller through.
use mathlib.Core.Path.{subst}
use mathlib.Core.List.{Mem, mem-cons_self, mem-cons_of_mem}
use sudowhat.Prelude.{
  [], ◌∷◌, ◌≡◌, ◌↔◌, true, some, refl, inl, inr, Text, codes, List, Bool, Option, ap, ap₂, ◌∙◌,
  and_parts, bytes_eq, bytes_eq_iff, Bool-cases, Option-cases, false, ◌⊎◌, not-true,
}
use sudowhat.Gate.Lines.{pam_lines}
use sudowhat.Gate.Chain.{
  nonconsole_allows, nopasswd_only, nonconsole_chain_of, any_line, is_integrity_line, is_gate_line,
  line_eq, lines_eq, nopasswd_only_lines, is_gate_variant, is_nopasswd_only_variant,
  has_integrity_line,
}

abbrev pub integrity_line : Text → List Text
integrity_line path = codes "auth" ∷ codes "requisite" ∷ path ∷ []

abbrev pub gate_line : Text → List Text → List Text
gate_line path rest = codes "auth" ∷ codes "sufficient" ∷ path ∷ codes "console-gate" ∷ rest

bytes_eq-eq : (a b : Text) → bytes_eq a b ≡ true → a ≡ b
bytes_eq-eq a b = (bytes_eq_iff a b).0

is_integrity_line-eq :
    (path : Text) (f : List Text) → is_integrity_line path f ≡ true → f ≡ integrity_line path
is_integrity_line-eq path [] h = cc
is_integrity_line-eq path (a ∷ []) h = cc
is_integrity_line-eq path (a ∷ b ∷ []) h = cc
is_integrity_line-eq path (a ∷ b ∷ c ∷ []) h =
    let (hab, hc) = and_parts _ _ h in
    let (ha, hb) = and_parts _ _ hab in
    ap₂ ◌∷◌ (bytes_eq-eq a _ ha) (ap₂ (λ x y. x ∷ y ∷ []) (bytes_eq-eq b _ hb) (bytes_eq-eq c _ hc))
is_integrity_line-eq path (a ∷ b ∷ c ∷ d ∷ f) h = cc

is_gate_line-eq :
    (path : Text) (f : List Text)
    → is_gate_line path f ≡ true
    → (rest : List Text) × (f ≡ gate_line path rest)
is_gate_line-eq path [] h = cc
is_gate_line-eq path (a ∷ []) h = cc
is_gate_line-eq path (a ∷ b ∷ []) h = cc
is_gate_line-eq path (a ∷ b ∷ c ∷ []) h = cc
is_gate_line-eq path (a ∷ b ∷ c ∷ d ∷ rest) h =
    let (hacb, hd) = and_parts _ _ h in
    let (hac, hb) = and_parts _ _ hacb in
    let (ha, hc) = and_parts _ _ hac in
    (
      rest,
      ap₂ ◌∷◌ (bytes_eq-eq a _ ha) (
          ap₂ ◌∷◌ (bytes_eq-eq b _ hb)
            (ap₂ (λ x y. x ∷ y ∷ rest) (bytes_eq-eq c _ hc) (bytes_eq-eq d _ hd))),
    )

any_line-Mem :
    (p : List Text → Bool) (lines : List (List Text))
    → any_line p lines ≡ true
    → (f : List Text) × (p f ≡ true) × Mem f lines
any_line-Mem p [] h = cc
any_line-Mem p (f ∷ lines) h = elim (Bool-cases (p f)) [
  | inl e ↦ (f, e, mem-cons_self)
  | inr e ↦ let (g, pg, at_g) = any_line-Mem p lines (rw e at h) in (g, pg, mem-cons_of_mem f at_g)
]

line_eq-eq : (f g : List Text) → line_eq f g ≡ true → f ≡ g
line_eq-eq [] [] h = refl
line_eq-eq [] (b ∷ g) h = cc
line_eq-eq (a ∷ f) [] h = cc
line_eq-eq (a ∷ f) (b ∷ g) h =
    let (ha, hf) = and_parts _ _ h in ap₂ ◌∷◌ (bytes_eq-eq a b ha) (line_eq-eq f g hf)

lines_eq-eq : (fs gs : List (List Text)) → lines_eq fs gs ≡ true → fs ≡ gs
lines_eq-eq [] [] h = refl
lines_eq-eq [] (g ∷ gs) h = cc
lines_eq-eq (f ∷ fs) [] h = cc
lines_eq-eq (f ∷ fs) (g ∷ gs) h =
    let (hf, hfs) = and_parts _ _ h in ap₂ ◌∷◌ (line_eq-eq f g hf) (lines_eq-eq fs gs hfs)

bytes_eq_self : (a : Text) → bytes_eq a a ≡ true
bytes_eq_self a = (bytes_eq_iff a a).1 refl

line_eq_self : (f : List Text) → line_eq f f ≡ true
line_eq_self [] = refl
line_eq_self (a ∷ f) = rw bytes_eq_self (line_eq_self f)

lines_eq_self : (fs : List (List Text)) → lines_eq fs fs ≡ true
lines_eq_self [] = refl
lines_eq_self (f ∷ fs) = rw line_eq_self (lines_eq_self fs)

-- A chain with our integrity line has it as a line of the file.
pub has_integrity_line-Mem :
    (path : Text) (content : Option Text)
    → has_integrity_line path content ≡ true
    → (lines : List (List Text)) × (pam_lines content ≡ some lines)
      × Mem (integrity_line path) lines
unfolding has_integrity_line
has_integrity_line-Mem path content h = elim (Option-cases (pam_lines content)) [
  | inl e ↦ cc
  | inr (lines, e) ↦
      let (f, is, at_f) =
        any_line-Mem (is_integrity_line path) lines (rw (e, has_integrity_line) at h) in
      (lines, e, subst (λ g. Mem g lines) (is_integrity_line-eq path f is) at_f)
]

-- The gate variant has our integrity line and our gate line.
is_gate_variant-Mem :
    (path : Text) (content : Option Text)
    → is_gate_variant path content ≡ true
    → (lines : List (List Text)) × (pam_lines content ≡ some lines)
      × Mem (integrity_line path) lines
      × ((rest : List Text) × Mem (gate_line path rest) lines)
unfolding is_gate_variant
is_gate_variant-Mem path content h = elim (Option-cases (pam_lines content)) [
  | inl e ↦ cc
  | inr (lines, e) ↦
      let (hi, hg) = and_parts _ _ (rw (e, is_gate_variant) at h) in
      let (f, is, at_f) = any_line-Mem (is_integrity_line path) lines hi in
      let (g, gate, at_g) = any_line-Mem (is_gate_line path) lines hg in
      let (rest, same) = is_gate_line-eq path g gate in
      (
        lines,
        e,
        subst (λ k. Mem k lines) (is_integrity_line-eq path f is) at_f,
        (rest, subst (λ k. Mem k lines) same at_g),
      )
]

-- The nopasswd-only variant is one file up to white space, comments and blank lines.
pub is_nopasswd_only_variant_iff :
    (path : Text) (content : Option Text)
    → (is_nopasswd_only_variant path content ≡ true)
      ↔ (pam_lines content ≡ some (nopasswd_only_lines path))
unfolding is_nopasswd_only_variant
is_nopasswd_only_variant_iff path content = (
  λ h. elim (Option-cases (pam_lines content)) [
    | inl e ↦ cc
    | inr (lines, e) ↦ e ∙ ap some (lines_eq-eq lines _ (rw (e, is_nopasswd_only_variant) at h))
  ],
  λ e. rw (e, is_nopasswd_only_variant) (lines_eq_self (nopasswd_only_lines path)),
)

-- A caller outside the console is let through only by a chain that has our integrity line, so PAM
-- ran our module if it ran at all. It is either the gate variant, whose gate line sends the caller
-- to a password, or exactly the nopasswd-only variant, and then only where authentication was
-- waived.
pub nonconsole_allows-lines :
    (path : Text) (content : Option Text) (marker_present : Bool)
    → nonconsole_allows (nonconsole_chain_of path content) marker_present ≡ true
    → (lines : List (List Text)) × (pam_lines content ≡ some lines)
      × Mem (integrity_line path) lines
      × (((rest : List Text) × Mem (gate_line path rest) lines)
          ⊎ ((marker_present ≡ false) × (lines ≡ nopasswd_only_lines path)))
unfolding nonconsole_chain_of
nonconsole_allows-lines path content marker_present h =
    elim (Bool-cases (is_gate_variant path content)) [
      | inl gate ↦
          let (lines, e, integrity, line) = is_gate_variant-Mem path content gate in
          (lines, e, integrity, inl line)
      | inr other ↦ elim (Bool-cases (is_nopasswd_only_variant path content)) [
        | inl only ↦ (
          nopasswd_only_lines path,
          (is_nopasswd_only_variant_iff path content).0 only,
          mem-cons_self,
          inr (not-true _ (rw (other, only, nonconsole_chain_of) at h), refl),
        )
        | inr neither ↦ cc
      ]
    ]

-- The two variants exclude each other, so the order of the tests decides nothing: a file is taken
-- for nopasswd-only exactly if its lines are the three of that variant.
pub nonconsole_chain_of-nopasswd_only :
    (path : Text) (content : Option Text)
    → (nonconsole_chain_of path content ≡ nopasswd_only)
      ↔ (pam_lines content ≡ some (nopasswd_only_lines path))
unfolding nonconsole_chain_of is_gate_variant
nonconsole_chain_of-nopasswd_only path content = (
  λ h. elim (Bool-cases (is_gate_variant path content)) [
    | inl gate ↦ cc
    | inr other ↦ elim (Bool-cases (is_nopasswd_only_variant path content)) [
      | inl only ↦ (is_nopasswd_only_variant_iff path content).0 only
      | inr neither ↦ cc
    ]
  ],
  λ e.
      let only = (is_nopasswd_only_variant_iff path content).1 e in
      let other : is_gate_variant path content ≡ false =
        rw (e, is_gate_variant, bytes_eq_self path) refl in
      rw (other, only) refl,
)

-- Whatever chain lets a caller through has our integrity line.
pub nonconsole_allows-integrity :
    (path : Text) (content : Option Text) (marker_present : Bool)
    → nonconsole_allows (nonconsole_chain_of path content) marker_present ≡ true
    → has_integrity_line path content ≡ true
unfolding nonconsole_chain_of has_integrity_line is_gate_variant
nonconsole_allows-integrity path content marker_present h =
    elim (Bool-cases (is_gate_variant path content)) [
      | inl gate ↦ elim (Option-cases (pam_lines content)) [
        | inl e ↦ let nothing = rw (is_gate_variant, e) at gate in cc
        | inr (lines, e) ↦
            rw (has_integrity_line, e) (and_parts _ _ (rw (is_gate_variant, e) at gate)).0
      ]
      | inr other ↦ elim (Bool-cases (is_nopasswd_only_variant path content)) [
        | inl only ↦
            rw
              (
                has_integrity_line,
                (is_nopasswd_only_variant_iff path content).0 only,
                bytes_eq_self path,
              )
              refl
        | inr neither ↦ cc
      ]
    ]
