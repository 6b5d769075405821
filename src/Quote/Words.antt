-- ===== src/Quote/Words.antt =====
-- A shell reads a quoted token as one word: the text that `escape_bytes` shows for it.
use sudowhat.Utf8.{decode}
use sudowhat.Escape.Clean.{IsPiece, pieces-IsPiece}
use sudowhat.Escape.Shape.{piece_text, texts, code_point_text, byte_text, escape_bytes-append}
use sudowhat.Escape.{Piece, char, hidden, byte, backslash, pieces, escape_bytes}
use sudowhat.Hex.{
  IsHexDigit, is_ascii_hexdigit, format_hex, format_hex-IsHexDigit, format_hex2-IsHexDigit,
}
use sudowhat.Prelude.{
  ℕ, ◌≡◌, ◌≢◌, refl, ap, ◌∙◌, true, false, List, [], ◌∷◌, ◌++◌, append-nil, append_assoc, Bytes,
  Text, arith, All, All-append, All-map, IsBytes, ◌<◌, some, Bool-cases, inl, inr, and_parts,
}
use sudowhat.Quote.Shape.{
  shown, shown-append, rendered, quoted_text, shown-render_token, quote_bytes-append,
}
use sudowhat.Quote.Shell.{blank, word, in_quotes, is_special, shell_from, shell_words}
use sudowhat.Quote.{is_safe, all_safe, render_piece, render_token, quote_bytes}

abbrev IsNoQuote : ℕ → Type 0
IsNoQuote c = c ≢ b'\''

-- Between quotes every character but a quote is literal.
shell_from-in_quotes :
    (t rest cur : Text)
    → All IsNoQuote t
    → shell_from (t ++ rest) (in_quotes cur) ≡ shell_from rest (in_quotes (cur ++ t))
unfolding shell_from
shell_from-in_quotes [] rest cur h = rw append-nil
shell_from-in_quotes (c ∷ t) rest cur h =
    ground (arith, shell_from-in_quotes t rest (cur ++ c ∷ []) h.1, append_assoc cur (c ∷ []) t)

IsHexDigit-IsNoQuote : (c : ℕ) → IsHexDigit c → IsNoQuote c
unfolding is_ascii_hexdigit
IsHexDigit-IsNoQuote c h = ground arith

code_point_text-IsNoQuote : (u : ℕ) → All IsNoQuote (code_point_text u)
code_point_text-IsNoQuote u = (
  omega arith,
  (
    omega arith,
    (
      omega arith,
      All-append IsNoQuote (format_hex u) _
          (All-map IsHexDigit-IsNoQuote _ (format_hex-IsHexDigit u)) (omega arith),
    ),
  ),
)

byte_text-IsNoQuote : (b : ℕ) → b < 256 → All IsNoQuote (byte_text b)
byte_text-IsNoQuote b h =
    (omega arith, (omega arith, All-map IsHexDigit-IsNoQuote _ (format_hex2-IsHexDigit b h)))

-- A part that holds no quote, between the quotes of the token.
shell_from-part :
    (t rest cur : Text)
    → All IsNoQuote t
    → shell_from ((t ++ []) ++ rest) (in_quotes cur) ≡ shell_from rest (in_quotes (cur ++ t))
shell_from-part t rest cur h =
    ap (λ u. shell_from (u ++ rest) (in_quotes cur)) (append-nil t)
    ∙ shell_from-in_quotes t rest cur h

-- The parts of one piece, between the quotes of the token.
shell_from-render_piece :
    (p : Piece) (rest cur : Text)
    → IsPiece p
    → shell_from (shown (render_piece p) ++ rest) (in_quotes cur)
      ≡ shell_from rest (in_quotes (cur ++ piece_text p))
unfolding render_piece
shell_from-render_piece (char c) rest cur h = unfold shell_from in ground arith
shell_from-render_piece (hidden u) rest cur h =
    shell_from-part _ rest cur (code_point_text-IsNoQuote u)
shell_from-render_piece (byte b) rest cur h = shell_from-part _ rest cur (byte_text-IsNoQuote b h.1)
shell_from-render_piece backslash rest cur h =
    shell_from-part _ rest cur (code_point_text-IsNoQuote b'\\')

shell_from-rendered :
    (ps : List Piece) (rest cur : Text)
    → All IsPiece ps
    → shell_from (shown (rendered ps) ++ rest) (in_quotes cur)
      ≡ shell_from rest (in_quotes (cur ++ texts ps))
shell_from-rendered [] rest cur h = rw append-nil
shell_from-rendered (p ∷ ps) rest cur h =
    rw (shown-append (render_piece p) (rendered ps), append_assoc)
      (shell_from-render_piece p _ cur h.0
        ∙ shell_from-rendered ps rest _ h.1
        ∙ ap (λ t. shell_from rest (in_quotes t)) (append_assoc cur (piece_text p) (texts ps)))

shell_from-quoted_text :
    (ps : List Piece) (rest : Text)
    → All IsPiece ps
    → shell_from (quoted_text ps ++ rest) blank ≡ shell_from rest (word (texts ps))
unfolding shell_from
shell_from-quoted_text ps rest h = rw append_assoc (shell_from-rendered ps (b'\'' ∷ rest) [] h)

-- A safe character stands for itself.
is_safe-ne_special :
    (c : ℕ) → is_safe c ≡ true → (is_special c ≡ false) × (c ≢ b' ') × (c ≢ b'\'') × (c ≢ b'\\')
unfolding is_safe is_special
is_safe-ne_special c h = ground arith

shell_from-is_safe :
    (c : ℕ) (t cur : Text)
    → is_safe c ≡ true
    → (shell_from (c ∷ t) (word cur) ≡ shell_from t (word (cur ++ c ∷ [])))
      × (shell_from (c ∷ t) blank ≡ shell_from t (word (c ∷ [])))
unfolding shell_from
shell_from-is_safe c t cur h = ground (arith, is_safe-ne_special c h)

shell_from-safe :
    (ps : List Piece) (rest cur : Text)
    → all_safe ps ≡ true
    → shell_from (texts ps ++ rest) (word cur) ≡ shell_from rest (word (cur ++ texts ps))
unfolding all_safe
shell_from-safe [] rest cur h = rw append-nil
shell_from-safe (char c ∷ ps) rest cur h =
    let (hc, hps) = and_parts (is_safe c) (all_safe ps) h in
    (shell_from-is_safe c _ cur hc).0
    ∙ shell_from-safe ps rest _ hps
    ∙ ap (λ t. shell_from rest (word t)) (append_assoc cur (c ∷ []) (texts ps))
shell_from-safe (_ ∷ ps) rest cur h = cc

shell_from-safe_token :
    (ps : List Piece) (rest : Text)
    → ps ≢ []
    → all_safe ps ≡ true
    → shell_from (texts ps ++ rest) blank ≡ shell_from rest (word (texts ps))
unfolding all_safe
shell_from-safe_token [] rest ne h = absurd (ne refl)
shell_from-safe_token (char c ∷ ps) rest ne h =
    let (hc, hps) = and_parts (is_safe c) (all_safe ps) h in
    (shell_from-is_safe c _ [] hc).1 ∙ shell_from-safe ps rest (c ∷ []) hps
shell_from-safe_token (_ ∷ ps) rest ne h = cc

pieces-ne_nil : (b : ℕ) (s : Bytes) → pieces (b ∷ s) ≢ []
unfolding pieces decode
pieces-ne_nil b s h = cc

-- A rendered token in front of a text is read as one word, open at its end.
pub shell_from-render_token :
    (s : Bytes) (rest : Text)
    → IsBytes s
    → shell_from (shown (render_token s) ++ rest) blank ≡ shell_from rest (word (escape_bytes s []))
shell_from-render_token [] rest h = unfold render_token escape_bytes shell_from decode in refl
shell_from-render_token (b ∷ s) rest h =
    rw (escape_bytes-append, shown-render_token b s)
      (elim (Bool-cases (all_safe (pieces (b ∷ s)))) [
        | inl e ↦ rw e (shell_from-safe_token _ rest (pieces-ne_nil b s) e)
        | inr e ↦ rw e (shell_from-quoted_text _ rest (pieces-IsPiece (b ∷ s) h))
      ])

-- A quoted token, whatever its bytes are, is one word to a shell: the text that is shown for the
-- token by `escape_bytes`, with the quotes gone.
pub shell_words-quote_bytes :
    (s : Bytes) → IsBytes s → shell_words (quote_bytes s []) ≡ some (escape_bytes s [] ∷ [])
unfolding shell_words
shell_words-quote_bytes s h =
    rw (quote_bytes-append, ← append-nil (shown (render_token s)))
      (shell_from-render_token s [] h ∙ unfold shell_from in refl)
