-- ===== src/Crypto/Toy.antt =====
-- Cryptography that hides nothing, for the examples: a sealed text is the text behind its key, a hash
-- the password behind its salt, a digest the length.
use rust4eska.Prelude.{
  refl, Text, text, text_eq, nat_eq, ◌++◌, Option, none, some, Result, ok, err, Error, eq_of_ok,
  decimal, strip_prefix, strip_suffix, strip_prefix-append, strip_suffix-append, is_some, length,
  take,
}
use rust4eska.Crypto.{Crypto}

abbrev or_wrong : Option Text → Result Text
or_wrong (some s) = ok s
or_wrong none = err Error.external

abbrev zeros : Text
zeros = text "0000000000000000000000000000000000000000000000000000000000000000"

abbrev pub toy : Crypto
toy = record {
  aes_encrypt = λ key nonce plain. ok (key ++ plain);
  aes_decrypt = λ key nonce sealed. or_wrong (strip_prefix sealed key);
  aes_decrypt-aes_encrypt =
      λ key nonce plain sealed h. rw (← eq_of_ok h) (rw (strip_prefix-append key plain) refl);
  hash_password_into = λ password salt. ok (salt ++ password);
  hash_password = λ password salt. ok (salt ++ password);
  verify_password = λ password hash. ok (is_some (strip_suffix hash password));
  verify_password-hash_password =
      λ password salt hash h. rw (← eq_of_ok h) (rw (strip_suffix-append salt password) refl);
  sha256 = λ s. take 64 (decimal (length s) ++ zeros);
  base64_decode = λ s. ok s;
}
