-- ===== src/Examples/Toys.antt =====
-- The data of the examples: two validators, their messages, and a ledger's store.
use open_chat.Prelude.{
  leb, ℕ, zero, suc, ◌≡◌, Bool, true, Option, none, some, List, [], ◌∷◌, arith, ◌==◌, if◌then◌else◌,
  Result, ok, err,
}
use open_chat.Go.Bytes.{Bytes, codes}
use open_chat.Go.Map.{Map, lookup, insert, lookup-insert}
use open_chat.Crypto.{toy}
use open_chat.Blockchain.Transaction
use open_chat.Blockchain.Transaction.{Transaction}
use open_chat.Blockchain.Block.{Block}
use open_chat.Blockchain.Chain.Store.{StoreError, failed, BlockStore, IsBlockStore}
use open_chat.Mempool.{RateLimiter, NonceSource, or_zero}

abbrev pub copies : ℕ → ℕ → Bytes
copies zero x = []
copies (suc n) x = x ∷ copies n x

abbrev pub alice : Bytes
alice = codes "0101010101010101010101010101010101010101010101010101010101010101"

abbrev pub alice_key : Bytes
alice_key = copies 32 1

abbrev pub bob : Bytes
bob = codes "0202020202020202020202020202020202020202020202020202020202020202"

abbrev pub bob_key : Bytes
bob_key = copies 32 2

-- What alice writes to bob.
abbrev pub greeting : ℕ → Transaction
greeting nonce = record {
  from = alice;
  to = bob;
  ciphertext = codes "hi";
  nonce_aead = copies 12 0;
  ephemeral_pubkey = copies 32 0;
  nonce = nonce;
  timestamp = 1000;
  signature = [];
}

abbrev pub signed_greeting : ℕ → Transaction
signed_greeting nonce = Transaction.sign toy (greeting nonce) alice_key

-- A bucket that always has a token, and a ledger on which nobody has committed anything.
abbrev pub generous : RateLimiter
generous = record {
  Limiter = Unit {0};
  new_limiter = λ limit burst. tt;
  allow = λ limiter now. (true, limiter);
}

abbrev pub fresh_nonces : NonceSource
fresh_nonces = λ from. some 0

pub record Shelf : Type 0 where
  pub blocks : List Block
  pub nonces : Map ℕ
  pub broken : Bool

abbrev pub find : List Block → ℕ → Option Block
find [] h = none
find (b ∷ bs) h = let rest = find bs h in if b.height == h then some b else rest

abbrev pub highest : List Block → ℕ
highest [] = 0
highest (b ∷ bs) = let rest = highest bs in if leb rest b.height then b.height else rest

abbrev pub put : Shelf → Block → Result StoreError Shelf
put s b = if s.broken then err failed else ok (record s { blocks = b ∷ s.blocks })

-- A store in memory, the block writes of which fail where it is broken.
abbrev pub shelf : BlockStore
shelf = record {
  State = Shelf;
  put_block = put;
  get_block = λ s h. ok (find s.blocks h);
  head = λ s. ok (highest s.blocks);
  last_nonce = λ s a. ok (or_zero (lookup s.nonces a));
  set_last_nonce = λ s a n. ok (record s { nonces = insert s.nonces a n });
}

abbrev pub Anything : Block → Type 0
Anything b = Unit {0}

put-ok :
    (s : Shelf) (b : Block) (s' : Shelf) → put s b ≡ ok s' → record s { blocks = b ∷ s.blocks } ≡ s'
put-ok s b s' h = ground arith

pub shelf-IsBlockStore : IsBlockStore shelf Anything
shelf-IsBlockStore = record {
  get_block-put_block = λ s b h w u v e. ground (arith, put-ok s b _ e);
  head-put_block = λ s b old w h e. ground (arith, h, put-ok s b _ e);
  head-set_last_nonce = λ s a n e. ground arith;
  last_nonce-put_block = λ s b a e. ground (arith, put-ok s b _ e);
  last_nonce-set_last_nonce = λ s a n k w e. ground (arith, lookup-insert s.nonces a k n);
  get_block-set_last_nonce = λ s a n h e. ground arith;
}
