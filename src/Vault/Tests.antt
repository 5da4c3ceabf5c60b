-- ===== src/Vault/Tests.antt =====
-- Redaction at concrete texts.
use secureprompt.Prelude.{
  ℕ, ◌≤◌, ◌≡◌, refl, List, [], ◌∷◌, All, arith, list_keyed, nat_keyed, list_beq_iff,
}
use secureprompt.Text.{Str, lit, slice, decimal, is_char_boundary}
use secureprompt.Map.{lookup, insert}
use secureprompt.Types.{Detection, TokenVault, resolve, restore, vault_insert, panic}
use secureprompt.Vault.{
  apply_redaction, sort_detections, sort_insert, sorts_before, redact_all, redact_one, emit,
  accepts, next_count, token, title_case,
}
use secureprompt.Vault.Examples.{ascii, detected}
use secureprompt.Vault.Tokens.{IsTidyClass}
use secureprompt.Vault.Spans.{IsTrueTo}
use secureprompt.Vault.Placing.{IsExact}
use secureprompt.Vault.Transform.{apply_transform}
use secureprompt.Vault.Transform.Panics.{apply_transform-panic}
use secureprompt.Vault.Roundtrip.{IsReordered, restore-apply_redaction}

abbrev text : Str
text = lit "Ali Aliev: ali@x.io, Ali"

-- The longer name and the shorter one overlap; the last one repeats a value.
abbrev found : List Detection
found =
    detected (lit "EMAIL_ADDRESS") 11 19 (lit "ali@x.io")
    ∷ detected (lit "PERSON") 0 3 (lit "Ali")
    ∷ detected (lit "PERSON") 0 9 (lit "Ali Aliev")
    ∷ detected (lit "person") 21 24 (lit "Ali")
    ∷ []

found_redacted :
    (apply_redaction ascii text found [] []).content
    ≡ lit "{{Person_1}}: {{Email_Address_1}}, {{Person_2}}"
unfolding apply_redaction sort_detections sort_insert sorts_before redact_all redact_one emit
    accepts is_char_boundary next_count token title_case decimal lookup insert vault_insert
found_redacted = refl

-- The vault of that call in another order.
abbrev reordered : TokenVault
reordered =
    (lit "{{Person_2}}", lit "Ali")
    ∷ (lit "{{Person_1}}", lit "Ali Aliev")
    ∷ (lit "{{Email_Address_1}}", lit "ali@x.io")
    ∷ []

found_vault :
    (apply_redaction ascii text found [] []).vault
    ≡ (lit "{{Person_1}}", lit "Ali Aliev")
      ∷ (lit "{{Email_Address_1}}", lit "ali@x.io")
      ∷ (lit "{{Person_2}}", lit "Ali")
      ∷ []
unfolding apply_redaction sort_detections sort_insert sorts_before redact_all redact_one emit
    accepts is_char_boundary next_count token title_case decimal lookup insert vault_insert
found_vault = refl

tidy_person : IsTidyClass ascii (lit "PERSON")
unfolding title_case
tidy_person = record { restores = refl; clean = omega arith }

tidy_email : IsTidyClass ascii (lit "EMAIL_ADDRESS")
unfolding title_case
tidy_email = record { restores = refl; clean = omega arith }

true_at :
    (content class : Str) (a b : ℕ) (value : Str)
    → a ≤ b
    → value ≡ slice content a b
    → IsTrueTo content (detected class a b value)
true_at content class a b value h e start stop spans =
    let starts : a ≡ start = cc spans in
    let stops : b ≡ stop = cc spans in (omega arith, rw (← starts, ← stops) e)

found-IsExact : All (IsExact ascii text) found
found-IsExact = (
  record {
    tidy = tidy_email;
    exact = true_at text (lit "EMAIL_ADDRESS") 11 19 (lit "ali@x.io") (omega arith) refl;
  },
  (
    record {
      tidy = tidy_person;
      exact = true_at text (lit "PERSON") 0 3 (lit "Ali") (omega arith) refl;
    },
    (
      record {
        tidy = tidy_person;
        exact = true_at text (lit "PERSON") 0 9 (lit "Ali Aliev") (omega arith) refl;
      },
      (
        record {
          tidy = tidy_person;
          exact = true_at text (lit "person") 21 24 (lit "Ali") (omega arith) refl;
        },
        tt,
      ),
    ),
  ),
)

reordered-found : IsReordered reordered (apply_redaction ascii text found [] []).vault
unfolding resolve lookup
reordered-found = record {
  resolves = λ p. rw found_vault (
      ground (
        arith,
        list_beq_iff (lit "{{Person_1}}") p,
        list_beq_iff (lit "{{Person_2}}") p,
        list_beq_iff (lit "{{Email_Address_1}}") p,
      ));
  from = rw found_vault (refl, (refl, (refl, tt)));
}

restore-apply_redaction_example :
    restore reordered (apply_redaction ascii text found [] []).content ≡ text
restore-apply_redaction_example =
    restore-apply_redaction ascii text found reordered (omega arith) found-IsExact (omega arith)
      reordered-found

-- Two characters of three bytes each.
abbrev kanji : Str
kanji = 230 ∷ 151 ∷ 165 ∷ 230 ∷ 156 ∷ 172 ∷ []

apply_transform-panic_example :
    apply_transform kanji (detected (lit "PERSON") 0 6 kanji ∷ []) (lit "<{value}>") ≡ panic
unfolding accepts is_char_boundary
apply_transform-panic_example =
    apply_transform-panic kanji (lit "<{value}>") (detected (lit "PERSON") 0 6 kanji) 0 6 refl refl
      (omega arith) refl
