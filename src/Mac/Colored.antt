-- ===== src/Mac/Colored.antt =====
-- The coloured values of the block and the values without their sequences.
use sudowhat.Color.Terminal.{strip_from}
use sudowhat.Audit.Emphasis.{strip_from-append, NoEscape}
use sudowhat.Gate.Lines.{split_on, push_front}
use sudowhat.Mac.Emphasis.{Strips, Strips-append, Strips-plain, Strips-sgr}
use sudowhat.Mac.Rows.{
  audit_row, gap, sgr, is_slash, is_colon, parent_head, entry_head, color_dir, color_entry,
  color_entries, color_list, color_path_list, color_user,
}
use sudowhat.Prelude.{
  zero, suc, ℕ, ◌≡◌, refl, ap, ◌∙◌, sym, List, [], ◌∷◌, ◌++◌, take, drop, Text, codes, Bool, true,
  false, All, append_assoc, take-append-drop, All-take, All-drop, ◌+◌, Bool-cases, inl,
  Option-cases, bytes_eq, ==_iff, inr, rposition, replicate, suc,
}

Strips-cut : (n : ℕ) (t a b : Text) → Strips a (take n t) → Strips b (drop n t) → Strips (a ++ b) t
Strips-cut n t a b ha hb rest =
    Strips-append a b (take n t) (drop n t) ha hb rest
    ∙ ap (λ u. u ++ strip_from false rest) (take-append-drop n t)

head_of : (t : Text) → All NoEscape t → Strips (sgr (codes "1;36") t) t
head_of t h = Strips-sgr (codes "1;36") t (refl, (refl, (refl, (refl, tt)))) h

-- The directory keeps every character.
pub Strips-color_dir : (dir : Text) → All NoEscape dir → Strips (color_dir dir) dir
unfolding color_dir
Strips-color_dir dir h = elim (Option-cases (rposition is_slash dir)) [
  | inl e ↦ rw (e, color_dir) (last_of dir h)
  | inr (i, e) ↦ rw (e, color_dir) (cut i)
]
  where
    last_of : (t : Text) → All NoEscape t → Strips (sgr (codes "1") t) t
    last_of t k = Strips-sgr (codes "1") t (refl, tt) k

    cut :
        (i : ℕ)
        → Strips
            (sgr (codes "1;36") (take (parent_head (take (i + 1) dir)) (take (i + 1) dir))
              ++ (drop (parent_head (take (i + 1) dir)) (take (i + 1) dir)
                  ++ sgr (codes "1") (drop (i + 1) dir)))
            dir
    cut i =
        let parent = take (i + 1) dir in
        let k = parent_head parent in
        let hp = All-take NoEscape (i + 1) dir h in
        λ rest.
          ap (strip_from false) (
            ap (λ u. u ++ rest)
              (sym (
                append_assoc (sgr (codes "1;36") (take k parent)) (drop k parent)
                  (sgr (codes "1") (drop (i + 1) dir)))))
          ∙ Strips-cut (i + 1) dir _ _
              (Strips-cut k parent _ _ (head_of (take k parent) (All-take NoEscape k parent hp))
                (Strips-plain (drop k parent) (All-drop NoEscape k parent hp)))
              (last_of (drop (i + 1) dir) (All-drop NoEscape (i + 1) dir h)) rest

Strips-color_entry : (entry : Text) → All NoEscape entry → Strips (color_entry entry) entry
unfolding color_entry
Strips-color_entry entry h =
    let k = entry_head entry in
    Strips-cut k entry _ _ (head_of (take k entry) (All-take NoEscape k entry h))
      (Strips-plain (drop k entry) (All-drop NoEscape k entry h))

-- The entries behind the first, with their colons.
abbrev colons : List Text → Text
colons [] = []
colons (entry ∷ entries) = b':' ∷ (entry ++ colons entries)

abbrev list_text : List Text → Text
list_text [] = []
list_text (entry ∷ entries) = entry ++ colons entries

Strips-color_entries :
    (entries : List Text)
    → All (All NoEscape) entries
    → Strips (color_entries entries) (colons entries)
unfolding color_entries
Strips-color_entries [] h = Strips-plain [] tt
Strips-color_entries (entry ∷ entries) h =
    Strips-append (sgr (codes "1;34") (b':' ∷ [])) _ (b':' ∷ []) _
      (Strips-sgr (codes "1;34") (b':' ∷ []) (refl, (refl, (refl, (refl, tt)))) (refl, tt))
      (Strips-append (color_entry entry) (color_entries entries) entry (colons entries)
        (Strips-color_entry entry h.0) (Strips-color_entries entries h.1))

Strips-color_list :
    (entries : List Text)
    → All (All NoEscape) entries
    → Strips (color_list entries) (list_text entries)
Strips-color_list [] h = Strips-plain [] tt
Strips-color_list (entry ∷ entries) h =
    Strips-append (color_entry entry) (color_entries entries) entry (colons entries)
      (Strips-color_entry entry h.0) (Strips-color_entries entries h.1)

split_on-cases : (f : ℕ → Bool) (t : Text) → (p : Text) × (ps : List Text) × (split_on f t ≡ p ∷ ps)
unfolding split_on
split_on-cases f [] = ([], [], refl)
split_on-cases f (c ∷ t) = elim (Bool-cases (f c)) [
  | inl e ↦ ([], split_on f t, rw e refl)
  | inr e ↦ let (p, ps, k) = split_on-cases f t in (c ∷ p, ps, rw e (ap (push_front c) k))
]

list_text-push_front :
    (c : ℕ) (parts : List Text) → list_text (push_front c parts) ≡ c ∷ list_text parts
list_text-push_front c [] = refl
list_text-push_front c (p ∷ parts) = refl

-- The components and their colons are the text.
list_text-split_on : (t : Text) → list_text (split_on is_colon t) ≡ t
unfolding split_on
list_text-split_on [] = refl
list_text-split_on (c ∷ t) = elim (Bool-cases (is_colon c)) [
  | inl e ↦
      let (p, ps, k) = split_on-cases is_colon t in
      rw e (
        ap colons k
        ∙ ap (λ u. b':' ∷ u) (sym (ap list_text k) ∙ list_text-split_on t)
        ∙ ap (λ d. d ∷ t) (sym ((==_iff c b':').0 e)))
  | inr e ↦
      rw e (list_text-push_front c (split_on is_colon t) ∙ ap (λ u. c ∷ u) (list_text-split_on t))
]

All-split_on : (f : ℕ → Bool) (t : Text) → All NoEscape t → All (All NoEscape) (split_on f t)
unfolding split_on
All-split_on f [] h = (tt, tt)
All-split_on f (c ∷ t) h = elim (Bool-cases (f c)) [
  | inl e ↦ rw e (tt, All-split_on f t h.1)
  | inr e ↦ rw e (pushed (split_on f t) (All-split_on f t h.1))
]
  where
    pushed :
        (parts : List Text) → All (All NoEscape) parts → All (All NoEscape) (push_front c parts)
    pushed [] k = ((h.0, tt), tt)
    pushed (p ∷ parts) k = ((h.0, k.0), k.1)

-- The list of a PATH keeps every character.
pub Strips-color_path_list : (t : Text) → All NoEscape t → Strips (color_path_list t) t
unfolding color_path_list
Strips-color_path_list t h rest =
    Strips-color_list (split_on is_colon t) (All-split_on is_colon t h) rest
    ∙ ap (λ u. u ++ strip_from false rest) (list_text-split_on t)

Strips-yellow :
    (user : Text)
    → All NoEscape user
    → Strips (0x1B ∷ (codes "[33m" ++ (user ++ 0x1B ∷ codes "[0m"))) user
unfolding strip_from
Strips-yellow user h rest =
    ap (strip_from false) (append_assoc user (0x1B ∷ codes "[0m") rest)
    ∙ strip_from-append user (0x1B ∷ (codes "[0m" ++ rest)) h

pub Strips-color_user : (user : Text) → All NoEscape user → Strips (color_user user) user
unfolding color_user
Strips-color_user user h = elim (Bool-cases (bytes_eq user (codes "root"))) [
  | inl e ↦ rw e (Strips-plain user h)
  | inr e ↦ rw e (Strips-yellow user h)
]

spaces-NoEscape : (n : ℕ) → All NoEscape (replicate n b' ')
spaces-NoEscape zero = tt
spaces-NoEscape (suc n) = (refl, spaces-NoEscape n)

-- Behind the label, or behind the sequence that ends its emphasis.
Strips-value :
    (label value plain : Text)
    → Strips value plain
    → Strips (gap label ++ (value ++ b'\n' ∷ [])) (gap label ++ (plain ++ b'\n' ∷ []))
Strips-value label value plain h =
    Strips-append (gap label) _ (gap label) _ (Strips-plain (gap label) (spaces-NoEscape _))
      (Strips-append value (b'\n' ∷ []) plain (b'\n' ∷ []) h (Strips-plain (b'\n' ∷ []) (refl, tt)))

-- A row is the plain row of the plain value.
pub Strips-audit_row :
    (label value plain : Text) (color : Bool)
    → All NoEscape label
    → Strips value plain
    → Strips (audit_row label value color) (audit_row label plain false)
unfolding audit_row strip_from
Strips-audit_row label value plain false hl h =
    let line : Text = gap label ++ (value ++ b'\n' ∷ []) in
    let shown : Text = gap label ++ (plain ++ b'\n' ∷ []) in
    Strips-append (codes "sudowhat: ") (label ++ line) (codes "sudowhat: ") (label ++ shown)
      (Strips-plain (codes "sudowhat: ")
        (refl, (refl, (refl, (refl, (refl, (refl, (refl, (refl, (refl, (refl, tt)))))))))))
      (Strips-append label line label shown (Strips-plain label hl)
        (Strips-value label value plain h))
Strips-audit_row label value plain true hl h = λ rest.
    ap (λ u. codes "sudowhat: " ++ u)
      (ap (strip_from false)
          (append_assoc label (0x1B ∷ (codes "[0m" ++ (gap label ++ (value ++ b'\n' ∷ [])))) rest)
        ∙ strip_from-append label
            ((0x1B ∷ (codes "[0m" ++ (gap label ++ (value ++ b'\n' ∷ [])))) ++ rest) hl
        ∙ ap (λ u. label ++ u) (Strips-value label value plain h rest)
        ∙ sym (append_assoc label (gap label ++ (plain ++ b'\n' ∷ [])) (strip_from false rest)))
