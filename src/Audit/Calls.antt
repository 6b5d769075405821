-- ===== src/Audit/Calls.antt =====
-- What the calls of `write_tty` in linux/sudowhat_audit/src/tty.rs do to the terminal and to the
-- descriptors.
use sudowhat.Prelude.{
  pos, negsuc, [], ◌∷◌, ◌≡◌, ◌≢◌, refl, Bytes, List, take, ◌++◌, ℕ, ap, ◌∙◌, sym, append_assoc, ℤ,
  Bool, true, false,
}
use sudowhat.Audit.Tty.{wrote, failed, Call, Outcome, opened, asked, sent, closed}

-- The bytes that the calls of `write` have taken, each of them counted, whatever its descriptor.
unfoldable pub delivered : List Call → Bytes
delivered [] = []
delivered (sent fd bytes (wrote w) ∷ calls) = take w bytes ++ delivered calls
delivered (sent fd bytes (failed e) ∷ calls) = delivered calls
delivered (opened path flags r ∷ calls) = delivered calls
delivered (asked fd r ∷ calls) = delivered calls
delivered (closed fd ∷ calls) = delivered calls

-- What is open at a path: nothing, or a descriptor, with whether `isatty` has said that it is a
-- terminal.
pub data Held : Type 0 where
  shut : Held
  held : ℕ → Bool → Held

-- The calls of one who talks to the terminal at a path: it is opened once at a time, asked whether it
-- is a terminal, written to on its own descriptor and only if it is one, and closed.
pub data Talk : Bytes → Held → List Call → Held → Type 0 where
  silent : {path : Bytes} {h : Held} → Talk path h [] h
  opening :
      {path : Bytes} {h : Held} {cs : List Call} (flags fd : ℕ)
      → Talk path (held fd false) cs h
      → Talk path shut (opened path flags (pos fd) ∷ cs) h
  failing :
      {path : Bytes} {h : Held} {cs : List Call} (flags e : ℕ)
      → Talk path shut cs h
      → Talk path shut (opened path flags (negsuc e) ∷ cs) h
  asking :
      {path : Bytes} {h : Held} {cs : List Call} (fd : ℕ) (r : ℤ)
      → Talk path (held fd false) cs h
      → Talk path (held fd false) (asked fd r ∷ cs) h
  confirming :
      {path : Bytes} {h : Held} {cs : List Call} (fd : ℕ) (r : ℤ)
      → r ≢ pos 0
      → Talk path (held fd true) cs h
      → Talk path (held fd false) (asked fd r ∷ cs) h
  sending :
      {path : Bytes} {h : Held} {cs : List Call} (fd : ℕ) (bytes : Bytes) (o : Outcome)
      → Talk path (held fd true) cs h
      → Talk path (held fd true) (sent fd bytes o ∷ cs) h
  closing :
      {path : Bytes} {h : Held} {cs : List Call} (fd : ℕ) (tty : Bool)
      → Talk path shut cs h
      → Talk path (held fd tty) (closed fd ∷ cs) h

pub Talk-append :
    {path : Bytes} {h k l : Held} {cs ds : List Call}
    → Talk path h cs k
    → Talk path k ds l
    → Talk path h (cs ++ ds) l
Talk-append silent t = t
Talk-append (opening flags fd s) t = opening flags fd (Talk-append s t)
Talk-append (failing flags e s) t = failing flags e (Talk-append s t)
Talk-append (asking fd r s) t = asking fd r (Talk-append s t)
Talk-append (confirming fd r n s) t = confirming fd r n (Talk-append s t)
Talk-append (sending fd bytes o s) t = sending fd bytes o (Talk-append s t)
Talk-append (closing fd tty s) t = closing fd tty (Talk-append s t)

pub delivered-append : (a b : List Call) → delivered (a ++ b) ≡ delivered a ++ delivered b
unfolding delivered
delivered-append [] b = refl
delivered-append (sent fd bytes (wrote w) ∷ a) b =
    ap (λ t. take w bytes ++ t) (delivered-append a b)
    ∙ sym (append_assoc (take w bytes) (delivered a) (delivered b))
delivered-append (sent fd bytes (failed e) ∷ a) b = delivered-append a b
delivered-append (opened path flags r ∷ a) b = delivered-append a b
delivered-append (asked fd r ∷ a) b = delivered-append a b
delivered-append (closed fd ∷ a) b = delivered-append a b
