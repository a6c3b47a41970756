-- ===== src/Indexer/Decode.antt =====
-- What `processLog` reads from the log of a `TransferSingle` event, by the encoding of its
-- arguments: two numbers of 32 bytes each, the most significant byte first.
use native.Mathlib.Nat.{div-add-mod', pow-suc}
use pred_sx.Base.{
  ℕ, zero, suc, ◌+◌, ◌*◌, ◌^◌, ◌/◌, ◌%◌, ◌<◌, ◌≡◌, refl, ap, ◌∙◌, true, some, List, [], ◌∷◌, ◌++◌,
  String, arith, subst, ◌==◌, length, length-append, take, drop,
}
use pred_sx.Base.Decimal.{itoa}
use pred_sx.Indexer.{set_bytes, set_bytes_from, process_log, trade_of}

-- `n` in `size` bytes.
pub encode : ℕ → ℕ → List ℕ
encode zero n = []
encode (suc size) n = encode size (n / 256) ++ n % 256 ∷ []

length-encode : (size n : ℕ) → length (encode size n) ≡ size
unfolding encode
length-encode zero n = refl
length-encode (suc size) n =
    length-append (encode size (n / 256)) (n % 256 ∷ [])
    ∙ ap (λ k. k + 1) (length-encode size (n / 256))
    ∙ (omega arith)

set_bytes-append :
    (n : ℕ) (xs ys : List ℕ) → set_bytes_from n (xs ++ ys) ≡ set_bytes_from (set_bytes_from n xs) ys
set_bytes-append n [] ys = refl
set_bytes-append n (x ∷ xs) ys = set_bytes-append (n * 256 + x) xs ys

set_bytes-encode : (size n : ℕ) → n < 256 ^ size → set_bytes (encode size n) ≡ n
unfolding encode
set_bytes-encode zero n h = omega arith
set_bytes-encode (suc size) n h =
    set_bytes-append 0 (encode size (n / 256)) (n % 256 ∷ [])
    ∙ ap (λ k. k * 256 + n % 256)
        (set_bytes-encode size (n / 256) (omega (arith, pow-suc 256 size)))
    ∙ div-add-mod' n 256

take-length : (xs ys : List ℕ) → take (length xs) (xs ++ ys) ≡ xs
take-length [] ys = refl
take-length (x ∷ xs) ys = ap (λ zs. x ∷ zs) (take-length xs ys)

drop-length : (xs ys : List ℕ) → drop (length xs) (xs ++ ys) ≡ ys
drop-length [] ys = refl
drop-length (x ∷ xs) ys = drop-length xs ys

take-encode : (size n : ℕ) (ys : List ℕ) → take size (encode size n ++ ys) ≡ encode size n
take-encode size n ys =
    subst (λ k. take k (encode size n ++ ys) ≡ encode size n) (length-encode size n)
      (take-length (encode size n) ys)

drop-encode : (size n : ℕ) (ys : List ℕ) → drop size (encode size n ++ ys) ≡ ys
drop-encode size n ys =
    subst (λ k. drop k (encode size n ++ ys) ≡ ys) (length-encode size n)
      (drop-length (encode size n) ys)

-- The data of a transfer of `value` of the token `id`.
abbrev pub transfer_data : ℕ → ℕ → List ℕ
transfer_data id value = encode 32 id ++ encode 32 value

length-transfer_data : (id value : ℕ) → length (transfer_data id value) ≡ 64
length-transfer_data id value =
    length-append (encode 32 id) (encode 32 value)
    ∙ ap (λ k. k + length (encode 32 value)) (length-encode 32 id)
    ∙ ap (λ k. 32 + k) (length-encode 32 value)

module _ (hash_hex address_hex : ℕ → String) where
  -- The log of a transfer whose token and amount are 256-bit numbers is published as a trade with
  -- the sender as maker, the receiver as taker, and the token and the amount in decimal.
  pub process_log-transfer :
      (sig now operator from to id value hash : ℕ)
      → id < 256 ^ 32
      → value < 256 ^ 32
      → process_log hash_hex address_hex sig now (record {
        topics = sig ∷ operator ∷ from ∷ to ∷ [];
        log_data = transfer_data id value;
        tx_hash = hash;
      })
        ≡ some (record {
          tx_hash = hash_hex hash;
          maker = address_hex from;
          taker = address_hex to;
          token_id = itoa id;
          amount = itoa value;
          timestamp = now;
        })
  unfolding process_log trade_of
  process_log-transfer sig now operator from to id value hash h k =
      let same : (sig == sig) ≡ true = grind arith in
      let id_read = ap set_bytes (take-encode 32 id (encode 32 value)) ∙ set_bytes-encode 32 id h in
      let value_read =
        ap set_bytes (drop-encode 32 id (encode 32 value)) ∙ set_bytes-encode 32 value k in
      rw (same, length-transfer_data id value, id_read, value_read) refl
