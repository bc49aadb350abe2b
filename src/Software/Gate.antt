-- ===== src/Software/Gate.antt =====
-- The gate that every deploy job passes lets through what the classification builds.
use librawatch.Common.{
  ℕ, Text, codes, text_eq, is_space, true, false, not, ◌&&◌, if_rule, Option, none, some, is_some,
  [], ◌∷◌, ◌++◌, any, ◌≡◌, refl, ap, ◌∙◌, arith,
}
use librawatch.Shared.Command.{cons_word, split_words, fields}
use librawatch.Shared.Product.{normalize_product_code}
use librawatch.Shared.ProductCode.{normalize_product_code_idem}
use librawatch.Shared.CommandLine.{parse_quiet_uninstall_command}
use librawatch.Software.Inventory.{InventoryRow}
use librawatch.Software.Uninstall.{
  is_id_char, is_winget_id, Uninstall, supported, unsupported, winget_payload, classify_winget,
  classify_quiet, classify_code, classify_uninstall, check_winget_fields, check_quiet,
  validate_deploy_request,
}

-- What the gate says of a classification: nothing, where a mechanism is offered.
abbrev pub Passes : Uninstall → Type 0
Passes (supported tier type payload args) = validate_deploy_request type payload args ≡ none
Passes (unsupported reason) = Unit

id_char-space : (c : ℕ) → is_id_char c ≡ true → is_space c ≡ false
unfolding is_space
id_char-space c h = ground arith

word-split :
    (w s : Text)
    → any (λ d. not (is_id_char d)) w ≡ false
    → split_words (w ++ 32 ∷ s) ≡ (w, fields s)
unfolding split_words fields any
word-split [] s h = unfold is_space in refl
word-split (c ∷ w) s h =
    let ih = word-split w s (ground arith) in
    let plain : is_space c ≡ false = id_char-space c (ground arith) in rw (ih, plain) refl

first_word :
    (c : ℕ) (w s : Text)
    → any (λ d. not (is_id_char d)) (c ∷ w) ≡ false
    → fields ((c ∷ w) ++ 32 ∷ s) ≡ (c ∷ w) ∷ fields s
unfolding fields
first_word c w s h = ap (λ p. cons_word p.0 p.1) (word-split (c ∷ w) s h)

abbrev flags : Text
flags = codes "--silent --accept-source-agreements"

id_chars :
    (c : ℕ) (w : Text) → is_winget_id (c ∷ w) ≡ true → any (λ d. not (is_id_char d)) (c ∷ w) ≡ false
unfolding is_winget_id any
id_chars c w h = ground arith

plain_words :
    (any (λ d. not (is_id_char d)) (codes "winget") ≡ false)
    × (any (λ d. not (is_id_char d)) (codes "uninstall") ≡ false)
    × (any (λ d. not (is_id_char d)) (codes "--id") ≡ false)
unfolding any
plain_words = (refl, refl, refl)

-- The fourth word of the command is the package's id.
check-winget_payload :
    (id : Text) → is_winget_id id ≡ true → check_winget_fields (fields (winget_payload id)) ≡ none
check-winget_payload [] h = unfold is_winget_id in cc
check-winget_payload (c ∷ w) h =
    ap check_winget_fields (
      first_word 119 (codes "inget") _ plain_words.0
      ∙ ap (λ l. codes "winget" ∷ l)
          (first_word 117 (codes "ninstall") _ plain_words.1
            ∙ ap (λ l. codes "uninstall" ∷ l)
                (first_word 45 (codes "-id") _ plain_words.2
                  ∙ ap (λ l. codes "--id" ∷ l) (first_word c w flags (id_chars c w h)))))
    ∙ (unfold check_winget_fields text_eq in rw h refl)

classify_winget-Passes : (row : InventoryRow) → Passes (classify_winget row)
unfolding classify_winget
classify_winget-Passes row =
    if_rule Passes (not (text_eq row.item.winget_id []) && is_winget_id row.item.winget_id) _ _
      (λ e.
        let id_ok : is_winget_id row.item.winget_id ≡ true = ground arith in
        unfold validate_deploy_request in check-winget_payload row.item.winget_id id_ok)
      (λ e. tt)

classify_quiet-Passes :
    (row : InventoryRow) → text_eq row.identity_key [] ≡ false → Passes (classify_quiet row)
unfolding classify_quiet
classify_quiet-Passes row key =
    if_rule Passes
      (not (text_eq row.item.quiet_uninstall_string [])
        && is_some (parse_quiet_uninstall_command row.item.quiet_uninstall_string))
      _ _
      (λ e.
        let parses : is_some (parse_quiet_uninstall_command row.item.quiet_uninstall_string)
            ≡ true =
          ground arith in
        unfold validate_deploy_request check_quiet in rw (parses, key) refl)
      (λ e. classify_winget-Passes row)

classify_code-Passes :
    (row : InventoryRow) (raw : Text)
    → text_eq row.identity_key [] ≡ false
    → Passes (classify_code row (normalize_product_code raw))
classify_code-Passes row raw key = split (normalize_product_code raw) refl
  where
    split : (o : Option Text) → normalize_product_code raw ≡ o → Passes (classify_code row o)
    split none e = unfold classify_code in classify_quiet-Passes row key
    split (some guid) e =
        unfold classify_code validate_deploy_request text_eq in
        rw (normalize_product_code_idem raw e) refl

-- Whatever a row with a key holds, the uninstall job that its classification offers passes the
-- validation of deploy requests: the handler's second check refuses none that the first lets
-- through, in any of the three tiers.
pub classify_uninstall-Passes :
    (row : InventoryRow) → text_eq row.identity_key [] ≡ false → Passes (classify_uninstall row)
unfolding classify_uninstall
classify_uninstall-Passes row key =
    if_rule Passes row.item.windows_installer _ _
      (λ _. classify_code-Passes row row.item.product_code key) (λ _. classify_quiet-Passes row key)
