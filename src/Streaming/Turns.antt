-- ===== src/Streaming/Turns.antt =====
-- One turn of the streamer's loop: nothing to wait for, a placeholder that has not ended, a whole one.
use secureprompt.Prelude.{
  ℕ, suc, ◌+◌, ◌-◌, ◌≡◌, ◌∙◌, ap, ap₂, none, some, [], ◌∷◌, ◌++◌, All, arith, length, take, drop,
  append-nil, length-append, nat_keyed,
}
use mathlib.Core.Option
use secureprompt.Text.{Str, find}
use secureprompt.Text.Replace.{NoOpen, placeholder, close}
use secureprompt.Types.{TokenVault, restore}
use secureprompt.Vault.Pieces.{
  raw, held, render, original, IsTidyPiece, IsBacked, IsEntry, restore-render,
}
use secureprompt.Streaming.{find_placeholder_start, hold_back, drain, emit_safe}
use secureprompt.Streaming.Scan.{
  find_placeholder_start-NoOpen, take-length_append, drop-length_append,
}

pub restore-plain : (v : TokenVault) (x : Str) → All IsEntry v → NoOpen x → restore v x ≡ x
unfolding render original
restore-plain v x hv hx =
    let step : restore v (x ++ []) ≡ x ++ [] = restore-render v (raw x ∷ []) hv (hx, tt) (tt, tt) in
    rw (append-nil x) at step

pub restore-held :
    (v : TokenVault) (x b w : Str)
    → All IsEntry v
    → NoOpen x
    → IsTidyPiece (held b w)
    → IsBacked v (held b w)
    → restore v (x ++ placeholder b) ≡ x ++ w
unfolding render original
restore-held v x b w hv hx hb hw =
    let step : restore v (x ++ (placeholder b ++ [])) ≡ x ++ (w ++ []) =
      restore-render v (raw x ∷ held b w ∷ []) hv (hx, (hb, tt)) (tt, (hw, tt)) in
    rw (append-nil (placeholder b), append-nil w) at step

-- One turn of the loop, by what it finds.
drain-idle_turn :
    (fuel : ℕ) (v : TokenVault) (out pending : Str) (n : ℕ)
    → find_placeholder_start pending ≡ none
    → length pending - hold_back pending ≡ suc n
    → drain (suc fuel) v out pending
      ≡ some (out ++ restore v (take (suc n) pending), drop (suc n) pending)
unfolding drain
drain-idle_turn fuel v out pending n none_in len = ground (arith, none_in, len)

drain-waiting_turn :
    (fuel : ℕ) (v : TokenVault) (out pending : Str) (n : ℕ)
    → find_placeholder_start pending ≡ some (suc n)
    → find close (drop (suc n) pending) ≡ none
    → drain (suc fuel) v out pending
      ≡ some (emit_safe v out (take (suc n) pending), drop (suc n) pending)
unfolding drain
drain-waiting_turn fuel v out pending n found unclosed = ground (arith, found, unclosed)

pub drain-whole_turn :
    (fuel : ℕ) (v : TokenVault) (out pending : Str) (start stop : ℕ)
    → find_placeholder_start pending ≡ some start
    → find close (drop start pending) ≡ some stop
    → drain (suc fuel) v out pending
      ≡ drain fuel v
          (emit_safe v out (take (start + stop + 2) pending))
          (drop (start + stop + 2) pending)
unfolding drain
drain-whole_turn fuel v out pending start stop found ends = ground (arith, found, ends)

-- The scan finds what the text after the plain part has.
pub scan-some :
    (x t : Str)
    → NoOpen x
    → find_placeholder_start t ≡ some 0
    → find_placeholder_start (x ++ t) ≡ some (length x)
scan-some x t hx at_start =
    find_placeholder_start-NoOpen x t hx
    ∙ ap (Option.map (λ i. length x + i)) at_start
    ∙ ap some (omega arith)

scan-none :
    (x t : Str)
    → NoOpen x
    → find_placeholder_start t ≡ none
    → find_placeholder_start (x ++ t) ≡ none
scan-none x t hx none_in =
    find_placeholder_start-NoOpen x t hx ∙ ap (Option.map (λ i. length x + i)) none_in

-- No placeholder begins: all but what is held back goes out.
pub drain-idle :
    (fuel : ℕ) (v : TokenVault) (out x t : Str)
    → All IsEntry v
    → NoOpen x
    → find_placeholder_start t ≡ none
    → hold_back (x ++ t) ≡ length t
    → drain (suc fuel) v out (x ++ t) ≡ some (out ++ x, t)
unfolding drain
drain-idle fuel v out [] t hv hx none_in kept = ground (arith, none_in, kept, append-nil out)
drain-idle fuel v out (a ∷ x) t hv hx none_in kept =
    let len : length (a ∷ x ++ t) - hold_back (a ∷ x ++ t) ≡ suc (length x) =
      rw kept (ground (arith, length-append (a ∷ x) t)) in
    drain-idle_turn fuel v out (a ∷ x ++ t) (length x) (scan-none (a ∷ x) t hx none_in) len
    ∙ ap some (
        ap₂ (λ p q. (out ++ p, q))
          (ap (restore v) (take-length_append (a ∷ x) t) ∙ restore-plain v (a ∷ x) hv hx)
          (drop-length_append (a ∷ x) t))

-- A placeholder begins and does not end: what stands before it goes out.
pub drain-waiting :
    (fuel : ℕ) (v : TokenVault) (out x t : Str)
    → All IsEntry v
    → NoOpen x
    → find_placeholder_start t ≡ some 0
    → find close t ≡ none
    → drain (suc fuel) v out (x ++ t) ≡ some (out ++ x, t)
unfolding drain emit_safe
drain-waiting fuel v out [] t hv hx at_start unclosed =
    ground (arith, at_start, unclosed, append-nil out)
drain-waiting fuel v out (a ∷ x) t hv hx at_start unclosed =
    let rest = drop-length_append (a ∷ x) t in
    drain-waiting_turn fuel v out (a ∷ x ++ t) (length x) (scan-some (a ∷ x) t hx at_start)
      (ap (find close) rest ∙ unclosed)
    ∙ ap some (
        ap₂ (λ p q. (out ++ p, q))
          (ap (restore v) (take-length_append (a ∷ x) t) ∙ restore-plain v (a ∷ x) hv hx) rest)
