-- ===== src/Streaming/Drain.antt =====
-- The loop of the streamer on whole pieces followed by what may be the front of a placeholder.
use secureprompt.Prelude.{
  ℕ, zero, suc, ◌+◌, ◌<◌, ◌≡◌, ◌≢◌, ◌∙◌, refl, sym, ap, ap₂, true, some, List, [], ◌∷◌, ◌++◌, All,
  arith, length, take, drop, append_assoc, append-nil, length-append, All-append, nat_keyed,
}
use secureprompt.Text.{Str, find}
use secureprompt.Text.Replace.{NoOpen, NoBrace, placeholder, close}
use secureprompt.Types.{TokenVault, restore}
use secureprompt.Vault.Pieces.{Piece, raw, held, render, original, IsTidyPiece, IsBacked, IsEntry}
use secureprompt.Streaming.{
  find_placeholder_start, is_ascii_uppercase, ends_with, hold_back, drain, emit_safe,
}
use secureprompt.Streaming.Turns.{
  restore-held, drain-whole_turn, scan-some, drain-idle, drain-waiting,
}
use secureprompt.Streaming.Scan.{
  find_placeholder_start-open, NoClose, NoBrace-NoClose, find-close, find-NoClose, find-half_close,
  ends_with-NoOpen, take-length_append, drop-length_append,
}

-- The body of a placeholder begins with an upper-case letter.
abbrev pub IsTitled : Str → Type 0
IsTitled [] = ⊥
IsTitled (b ∷ s) = is_ascii_uppercase b ≡ true

abbrev pub IsTitledPiece : Piece → Type 0
IsTitledPiece (raw x) = Unit
IsTitledPiece (held body value) = IsTitled body

-- A front of a placeholder.
pub data Front : Type 0 where
  nothing one_brace two_braces : Front
  in_body half_closed : (first : ℕ) (rest : Str) → Front

unfoldable pub front : Front → Str
front nothing = []
front one_brace = 123 ∷ []
front two_braces = 123 ∷ 123 ∷ []
front (in_body c b) = 123 ∷ 123 ∷ (c ∷ b)
front (half_closed c b) = 123 ∷ 123 ∷ (c ∷ (b ++ 125 ∷ []))

abbrev pub IsFront : Front → Type 0
IsFront nothing = Unit
IsFront one_brace = Unit
IsFront two_braces = Unit
IsFront (in_body c b) = (is_ascii_uppercase c ≡ true) × NoBrace (c ∷ b)
IsFront (half_closed c b) = (is_ascii_uppercase c ≡ true) × NoBrace (c ∷ b)

-- Plain text before it does not change what is held back.
hold_back-NoOpen : (x t : Str) → NoOpen x → hold_back (x ++ t) ≡ hold_back t
unfolding hold_back
hold_back-NoOpen x t hx = rw (ends_with-NoOpen (123 ∷ []) x t hx, ends_with-NoOpen [] x t hx) refl

opens-NoClose : (c : ℕ) (b : Str) → NoBrace (c ∷ b) → NoClose (123 ∷ 123 ∷ (c ∷ b))
opens-NoClose c b h = (omega arith, (omega arith, NoBrace-NoClose (c ∷ b) h))

-- With only a front after it, plain text goes out and the front stays.
drain-front :
    (fuel : ℕ) (v : TokenVault) (out x : Str) (t : Front)
    → All IsEntry v
    → NoOpen x
    → IsFront t
    → drain (suc fuel) v out (x ++ front t) ≡ some (out ++ x, front t)
unfolding front find_placeholder_start hold_back ends_with
drain-front fuel v out x nothing hv hx ht =
    drain-idle fuel v out x [] hv hx refl (hold_back-NoOpen x [] hx)
drain-front fuel v out x one_brace hv hx ht =
    drain-idle fuel v out x (123 ∷ []) hv hx refl (hold_back-NoOpen x (123 ∷ []) hx)
drain-front fuel v out x two_braces hv hx ht =
    drain-idle fuel v out x (123 ∷ 123 ∷ []) hv hx refl (hold_back-NoOpen x (123 ∷ 123 ∷ []) hx)
drain-front fuel v out x (in_body c b) hv hx ht =
    drain-waiting fuel v out x (123 ∷ 123 ∷ (c ∷ b)) hv hx (find_placeholder_start-open c b ht.0)
      (find-NoClose (123 ∷ 123 ∷ (c ∷ b)) (opens-NoClose c b ht.1))
drain-front fuel v out x (half_closed c b) hv hx ht =
    drain-waiting fuel v out x (123 ∷ 123 ∷ (c ∷ (b ++ 125 ∷ []))) hv hx
      (find_placeholder_start-open c (b ++ 125 ∷ []) ht.0)
      (find-half_close (123 ∷ 123 ∷ (c ∷ b)) (opens-NoClose c b ht.1))

emit-nonempty :
    (v : TokenVault) (out x s : Str)
    → 0 < length s
    → emit_safe v out (x ++ s) ≡ out ++ restore v (x ++ s)
unfolding emit_safe
emit-nonempty v out [] [] h = absurd (omega arith)
emit-nonempty v out [] (b ∷ s) h = refl
emit-nonempty v out (a ∷ x) s h = refl

-- A whole placeholder is restored together with the plain text before it.
drain-held :
    (fuel : ℕ) (v : TokenVault) (out x body w s : Str)
    → All IsEntry v
    → NoOpen x
    → IsTidyPiece (held body w)
    → IsBacked v (held body w)
    → IsTitled body
    → drain (suc fuel) v out ((x ++ placeholder body) ++ s) ≡ drain fuel v (out ++ (x ++ w)) s
drain-held fuel v out x [] w s hv hx hb hw titled = absurd titled
drain-held fuel v out x (c ∷ b) w s hv hx hb hw titled =
    let body : Str = c ∷ b in
    let pending = (x ++ placeholder body) ++ s in
    let apart : pending ≡ x ++ (placeholder body ++ s) = append_assoc x (placeholder body) s in
    let begins : find_placeholder_start pending ≡ some (length x) = rw apart (
      scan-some x (placeholder body ++ s) hx
        (find_placeholder_start-open c ((b ++ close) ++ s) titled)) in
    let ends : find close (drop (length x) pending) ≡ some (length body + 2) =
      ap (λ q. find close (drop (length x) q)) apart
      ∙ ap (find close) (drop-length_append x (placeholder body ++ s))
      ∙ ap (λ q. find close (123 ∷ 123 ∷ q)) (append_assoc body close s)
      ∙ find-close (123 ∷ 123 ∷ body) s (opens-NoClose c b hb.0)
      ∙ ap some (omega arith) in
    let len : length x + (length body + 2) + 2 ≡ length (x ++ placeholder body) = sym (
      length-append x (placeholder body)
      ∙ ap (λ n. length x + suc (suc n)) (length-append body close)
      ∙ omega arith) in
    let whole : take (length x + (length body + 2) + 2) pending ≡ x ++ placeholder body =
      rw len (take-length_append (x ++ placeholder body) s) in
    drain-whole_turn fuel v out pending (length x) (length body + 2) begins ends
    ∙ ap₂ (λ p q. drain fuel v p q)
        (ap (emit_safe v out) whole
          ∙ emit-nonempty v out x (placeholder body) (omega arith)
          ∙ ap (◌++◌ out) (restore-held v x body w hv hx hb hw))
        (rw len (drop-length_append (x ++ placeholder body) s))

regroup : (a b c d : Str) → a ++ ((b ++ c) ++ d) ≡ (a ++ b) ++ (c ++ d)
regroup a b c d = ap (◌++◌ a) (append_assoc b c d) ∙ sym (append_assoc a b (c ++ d))

-- Whole pieces go out restored, whatever the fuel above the length of the text.
pub drain-pieces :
    (fuel : ℕ) (v : TokenVault) (out x : Str) (qs : List Piece) (t : Front)
    → All IsEntry v
    → NoOpen x
    → All IsTidyPiece qs
    → All (IsBacked v) qs
    → All IsTitledPiece qs
    → IsFront t
    → length (x ++ (render qs ++ front t)) < fuel
    → drain fuel v out (x ++ (render qs ++ front t)) ≡ some (out ++ (x ++ original qs), front t)
unfolding render original
drain-pieces zero v out x qs t hv hx tidy backed titled ht enough = absurd (omega arith)
drain-pieces (suc fuel) v out x [] t hv hx tidy backed titled ht enough =
    rw (append-nil x) (drain-front fuel v out x t hv hx ht)
drain-pieces (suc fuel) v out x (raw y ∷ qs) t hv hx tidy backed titled ht enough =
    let same = regroup x y (render qs) (front t) in
    ap (drain (suc fuel) v out) same
    ∙ drain-pieces (suc fuel) v out (x ++ y) qs t hv (All-append (λ b. b ≢ 123) x y hx tidy.0)
        tidy.1 backed.1 titled.1 ht (rw same at enough)
    ∙ ap (λ q. some (out ++ q, front t)) (append_assoc x y (original qs))
drain-pieces (suc fuel) v out x (held b w ∷ qs) t hv hx tidy backed titled ht enough =
    let same = regroup x (placeholder b) (render qs) (front t) in
    let rest = render qs ++ front t in
    let shorter : length rest < fuel = ground (
      arith,
      length-append (x ++ placeholder b) rest,
      length-append x (placeholder b),
      rw same at enough,
    ) in
    ap (drain (suc fuel) v out) same
    ∙ drain-held fuel v out x b w rest hv hx tidy.0 backed.0 titled.0
    ∙ drain-pieces fuel v (out ++ (x ++ w)) [] qs t hv tt tidy.1 backed.1 titled.1 ht shorter
    ∙ ap (λ q. some (q, front t))
        (append_assoc out (x ++ w) (original qs) ∙ ap (◌++◌ out) (append_assoc x w (original qs)))
