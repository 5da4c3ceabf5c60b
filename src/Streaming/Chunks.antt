-- ===== src/Streaming/Chunks.antt =====
-- A redacted text that arrives in deltas, cut anywhere: the streamer restores it as a whole.
use secureprompt.Prelude.{
  suc, ◌≡◌, ◌∙◌, refl, sym, ap, some, List, [], ◌∷◌, ◌++◌, All, arith, length, append_assoc,
  append-nil, All-imp, nat_keyed,
}
use mathlib.Core.Option
use secureprompt.Text.{Str}
use secureprompt.Types.{TokenVault, restore}
use secureprompt.Vault.Pieces.{
  Piece, render, original, IsTidyPiece, IsBacked, IsEntry, restore-render,
}
use secureprompt.Streaming.Batch.{joined}
use secureprompt.Streaming.Cut.{Cut, IsSound, Cut-pieces}
use secureprompt.Streaming.{drain, push, flush, stream}
use secureprompt.Streaming.Drain.{IsTitledPiece, Front, nothing, front, drain-pieces}

IsSound-IsTidyPiece : (v : TokenVault) (ps : List Piece) → All (IsSound v) ps → All IsTidyPiece ps
IsSound-IsTidyPiece v ps = All-imp (λ p h. h.0) ps

IsSound-IsBacked : (v : TokenVault) (ps : List Piece) → All (IsSound v) ps → All (IsBacked v) ps
IsSound-IsBacked v ps = All-imp (λ p h. h.1.0) ps

IsSound-IsTitledPiece :
    (v : TokenVault) (ps : List Piece) → All (IsSound v) ps → All IsTitledPiece ps
IsSound-IsTitledPiece v ps = All-imp (λ p h. h.1.1) ps

-- Delta by delta, what comes out and what is left are those of the pieces that are cut off.
push-Cut :
    (v : TokenVault) (t : Front) (rs : List Piece) (delta b : Str)
    → All IsEntry v
    → (cut : Cut v rs (front t ++ delta) b)
    → push v (front t) delta ≡ some (original cut.before, front cut.left_over)
unfolding push
push-Cut v t rs delta b entries cut =
    ap (λ u. drain (suc (length u)) v [] u) (sym cut.first_part)
    ∙ drain-pieces (suc (length (render cut.before ++ front cut.left_over))) v [] [] cut.before
        cut.left_over entries tt (IsSound-IsTidyPiece v cut.before cut.before_sound)
        (IsSound-IsBacked v cut.before cut.before_sound)
        (IsSound-IsTitledPiece v cut.before cut.before_sound) cut.IsFront_left_over (omega arith)

flush_lem : (v : TokenVault) (pending : Str) → All IsEntry v → flush v pending ≡ restore v pending
unfolding flush render original
flush_lem v [] entries = sym (restore-render v [] entries tt tt)
flush_lem v (b ∷ pending) entries = refl

restore-pieces :
    (v : TokenVault) (rs : List Piece)
    → All IsEntry v
    → All (IsSound v) rs
    → restore v (render rs) ≡ original rs
restore-pieces v rs entries sound =
    restore-render v rs entries (IsSound-IsTidyPiece v rs sound) (IsSound-IsBacked v rs sound)

stream_step :
    (v : TokenVault) (pending delta out pending' : Str) (deltas : List Str)
    → push v pending delta ≡ some (out, pending')
    → stream v pending (delta ∷ deltas)
      ≡ Option.map (λ rest. out ++ rest) (stream v pending' deltas)
unfolding stream
stream_step v pending delta out pending' deltas now = cc now

stream-pieces :
    (v : TokenVault) (t : Front) (rs : List Piece) (deltas : List Str)
    → All IsEntry v
    → All (IsSound v) rs
    → front t ++ joined deltas ≡ render rs
    → stream v (front t) deltas ≡ some (original rs)
unfolding stream
stream-pieces v t rs [] entries sound e = ap some (
    flush_lem v (front t) entries
    ∙ ap (restore v) (sym (append-nil (front t)) ∙ e)
    ∙ restore-pieces v rs entries sound)
stream-pieces v t rs (delta ∷ deltas) entries sound e =
    let cut =
      Cut-pieces v rs (front t ++ delta) (joined deltas) sound
        (append_assoc (front t) delta (joined deltas) ∙ e) in
    let later =
      stream-pieces v cut.left_over cut.after deltas entries cut.after_sound
        (sym cut.second_part) in
    let now = push-Cut v t rs delta (joined deltas) entries cut in
    stream_step v (front t) delta (original cut.before) (front cut.left_over) deltas now
    ∙ ap (Option.map (λ rest. original cut.before ++ rest)) later
    ∙ ap some (sym cut.same_original)

-- Let a text consist of placeholders whose bodies hold no brace and begin with an upper-case ASCII
-- letter, and of text without `{`; let the vault map each of these placeholders to its value, let
-- every key of the vault be a placeholder without braces in its body, and no value have a `{`.
-- However the text is cut into deltas, also inside a placeholder, the streamer ends every loop and
-- writes in all the text with each placeholder replaced by its value, which is what restoring the
-- whole text at once gives.
pub stream-restore :
    (v : TokenVault) (rs : List Piece) (deltas : List Str)
    → All IsEntry v
    → All (IsSound v) rs
    → joined deltas ≡ render rs
    → (stream v [] deltas ≡ some (original rs)) × (restore v (joined deltas) ≡ original rs)
unfolding front
stream-restore v rs deltas entries sound e = (
  stream-pieces v nothing rs deltas entries sound e,
  ap (restore v) e ∙ restore-pieces v rs entries sound,
)
