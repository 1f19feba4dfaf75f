-- ===== src/Server/Vault/Secrets.antt =====
-- Secrets that are set come back, binaries/r4a-server/src/main.rs.
use rust4eska.Prelude.{
  ℕ, ◌≡◌, refl, ap, subst, sym, ◌∙◌, inl, inr, Text, text, text_eq, nat_eq, Option-cases, none,
  some, List, Result-cases, ok, Bool-cases, true, arith, lookup, from_utf8,
}
use rust4eska.Models.{Verb, Token, VaultSecret}
use rust4eska.Backend.{Backend}
use rust4eska.Crypto.{Crypto, encrypt, decrypt-encrypt}
use rust4eska.Store.{Store, put, put_as}
use rust4eska.Store.Entries.{HasEntry, HasEntry-get_as}
use rust4eska.Store.Writes.{put_as-HasEntry}
use rust4eska.Store.Vault.{full_key, put_vault_secret, get_vault_secret, decrypt_secret}
use rust4eska.Server.{AppState}
use rust4eska.Server.Reply.{done}
use rust4eska.Server.Vault.{
  VaultSetRequest, may_vault, secret_of, vault_set_handler, vault_get_handler,
}

module _ (B : Backend) where
  -- Writing an entry leaves the keys of the vault.
  vault_keys-put :
      (tree key : Text) (value : B.Blob) (s : Store B)
      → (put B tree key value s).1.vault_keys ≡ s.vault_keys
  unfolding put
  vault_keys-put tree key value s = ground arith

  vault_keys-put_as :
      (tree key : Text) (secret : VaultSecret) (s : Store B)
      → (put_as B B.secret_json tree key secret s).1.vault_keys ≡ s.vault_keys
  vault_keys-put_as tree key secret s = elim (Result-cases (B.secret_json.to_vec secret)) [
    | inl (e, p) ↦ rw p refl
    | inr (value, p) ↦ rw p (vault_keys-put tree key value s)
  ]

  module _ (C : Crypto) where
    -- what a `vault_set_handler` that succeeds has done
    record WasSet (nonce : List ℕ) (now : ℕ) (req : VaultSetRequest) (before after : AppState B)
        : Type 0 where
      dek : List ℕ
      sealed : Text × Text
      keyed : lookup req.config_id before.store.vault_keys ≡ some dek
      encrypted : encrypt C nonce dek req.value ≡ ok sealed
      put_ok : (put_vault_secret B (secret_of B C req now sealed) before.store).0 ≡ ok tt
      is_after : after ≡ record before {
        store = (put_vault_secret B (secret_of B C req now sealed) before.store).1;
      }

    WasSet-vault_set_handler :
        (nonce : List ℕ) (now : ℕ) (t : Token) (req : VaultSetRequest) (state : AppState B)
        → (vault_set_handler B C nonce now t req state).0 ≡ done tt
        → WasSet nonce now req state (vault_set_handler B C nonce now t req state).1
    unfolding vault_set_handler
    WasSet-vault_set_handler nonce now t req state h =
        elim (Bool-cases (may_vault B Verb.create none t state)) [
          | inr q ↦ absurd (ground (arith, h, q))
          | inl q ↦ elim (Option-cases (lookup req.config_id state.store.vault_keys)) [
            | inl p ↦ absurd (ground (arith, h, q, p))
            | inr (dek, p) ↦ elim (Result-cases (encrypt C nonce dek req.value)) [
              | inl (e, c) ↦ absurd (ground (arith, h, q, p, c))
              | inr (sealed, c) ↦
                  elim (Result-cases
                    (put_vault_secret B (secret_of B C req now sealed) state.store).0) [
                      | inl (e, w) ↦ absurd (ground (arith, h, q, p, c, w))
                      | inr (u, w) ↦ record {
                        dek = dek;
                        sealed = sealed;
                        keyed = p;
                        encrypted = c;
                        put_ok = w;
                        is_after = ground (arith, q, p, c, w);
                      }
                    ]
            ]
          ]
        ]

    -- the secret that was put is there, and is decrypted with the same key
    module _ (nonce : List ℕ) (now : ℕ) (req : VaultSetRequest) (before after : AppState B)
        (set : WasSet nonce now req before after) where
      stored :
          get_vault_secret B req.config_id req.key after.store
          ≡ ok (some (secret_of B C req now set.sealed))
      unfolding get_vault_secret
      stored =
          let secret : VaultSecret = secret_of B C req now set.sealed in
          HasEntry-get_as B B.secret_json (text "vault") (full_key req.config_id req.key)
            after.store secret
            (subst
              (λ (state : AppState B).
                HasEntry B B.secret_json (text "vault") (full_key req.config_id req.key)
                  state.store.db secret)
              (sym set.is_after)
              (unfold put_vault_secret in
                put_as-HasEntry B B.secret_json (text "vault") (full_key req.config_id req.key)
                  secret before.store set.put_ok))

      same_keys : after.store.vault_keys ≡ before.store.vault_keys
      unfolding put_vault_secret
      same_keys =
          ap (λ (state : AppState B). state.store.vault_keys) set.is_after
          ∙ vault_keys-put_as (text "vault") (full_key req.config_id req.key)
              (secret_of B C req now set.sealed) before.store

      opened :
          from_utf8 req.value ≡ ok req.value
          → decrypt_secret B C (secret_of B C req now set.sealed) after.store ≡ ok req.value
      unfolding decrypt_secret
      opened is_text =
          rw
            (
              same_keys,
              set.keyed,
              decrypt-encrypt C nonce set.dek req.value set.sealed set.encrypted,
            )
            is_text

  -- A secret that was set is read back: if `vault_set_handler` answers 200, then `vault_get_handler`
  -- right after it, asked for the same configuration and key with a token that may read that secret
  -- then, answers with the value that was set, which is valid UTF-8, and changes nothing.
  pub vault_get_handler-vault_set_handler :
      (C : Crypto) (nonce : List ℕ) (now : ℕ) (t reader : Token) (req : VaultSetRequest)
      (query : List (Text × Text)) (state : AppState B)
      → from_utf8 req.value ≡ ok req.value
      → lookup (text "config_id") query ≡ some req.config_id
      → lookup (text "key") query ≡ some req.key
      → (vault_set_handler B C nonce now t req state).0 ≡ done tt
      → may_vault B Verb.get
          (some (full_key req.config_id req.key))
          reader
          (vault_set_handler B C nonce now t req state).1
        ≡ true
      → vault_get_handler B C reader query (vault_set_handler B C nonce now t req state).1
        ≡ (done req.value, (vault_set_handler B C nonce now t req state).1)
  unfolding vault_get_handler
  vault_get_handler-vault_set_handler C nonce now t reader req query state is_text at_config at_key
        h may =
      let after : AppState B = (vault_set_handler B C nonce now t req state).1 in
      let set = WasSet-vault_set_handler C nonce now t req state h in
      let found = stored C nonce now req state after set in
      let value = opened C nonce now req state after set is_text in
      ground (arith, at_config, at_key, may, found, value)
