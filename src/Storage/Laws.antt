-- ===== src/Storage/Laws.antt =====
-- The store meets what the ledger asks of it.
use open_chat.Prelude.{
  ℕ, ◌≡◌, Option, none, some, arith, leb, ◌==◌, if◌then◌else◌, ok, split_chain, Bool-cases, inl,
  inr, ◌∙◌, false,
}
use open_chat.Go.Bytes.{Bytes, eq_bytes, eq_bytes_refl}
use open_chat.Go.BigEndian.{put_u64, uint64-put_u64}
use open_chat.Go.Int64.{IsWord}
use open_chat.Blockchain.Block.{Block}
use open_chat.Blockchain.Chain.Store.{IsBlockStore}
use open_chat.Storage.{
  Badger, BlockJson, block_key, nonce_key, key_head, read_u64, or_failed, advance_head, put_block,
  decode_block, get_block, head, last_nonce, set_last_nonce, store,
}
use open_chat.Storage.Keys.{
  eq-block_key, eq-nonce_key, eq-block_key-nonce_key, eq-nonce_key-block_key, eq-key_head-block_key,
  eq-key_head-nonce_key, eq-block_key-key_head, eq-nonce_key-key_head,
}

-- JSON gives the block back as it was.
abbrev pub RoundTrips : BlockJson → Block → Type 0
RoundTrips J b = (text : Bytes) × (J.marshal b ≡ some text) × (J.unmarshal text ≡ some b)

module _ (B : Badger) (J : BlockJson) where
  open B use {Db, Txn, begin, set, get, commit}

  -- The steps of a `PutBlock` that ended well.
  record Put (db : Db) (b : Block) (db' : Db) : Type 0 where
    text : Bytes
    marshalled : J.marshal b ≡ some text
    t : Txn
    t_set : set (begin db) (block_key b.height) text ≡ ok t
    stored : Option Bytes
    stored_got : get t key_head ≡ ok stored
    current : ℕ
    current_read : read_u64 stored ≡ ok current
    t' : Txn
    t'_set : advance_head B J t b.height current ≡ ok t'
    committed : commit t' ≡ ok db'

  marshal-ok : (o : Option Bytes) (x : Bytes) → or_failed o ≡ ok x → o ≡ some x
  marshal-ok none x h = cc
  marshal-ok (some y) x h = cc

  put_block-Put : (db : Db) (b : Block) (db' : Db) → put_block B J db b ≡ ok db' → Put db b db'
  unfolding put_block
  put_block-Put db b db' h =
      let (x, r1, p1) = split_chain _ (or_failed (J.marshal b)) h in
      let (t, r2, p2) = split_chain _ (set (begin db) (block_key b.height) x) r1 in
      let (o, r3, p3) = split_chain _ (get t key_head) r2 in
      let (n, r4, p4) = split_chain _ (read_u64 o) r3 in
      let (t', r5, p5) = split_chain _ (advance_head B J t b.height n) r4 in
      record {
        text = x;
        marshalled = marshal-ok (J.marshal b) x p1;
        t = t;
        t_set = p2;
        stored = o;
        stored_got = p3;
        current = n;
        current_read = p4;
        t' = t';
        t'_set = p5;
        committed = r5;
      }

  -- A `PutBlock` writes the block's key and the head, and nothing else.
  Put-get :
      (db : Db) (b : Block) (db' : Db) (j : Bytes)
      → (p : Put db b db') → eq_bytes key_head j ≡ false
      → get (begin db') j
        ≡ (if eq_bytes (block_key b.height) j then ok (some p.text) else get (begin db) j)
  unfolding advance_head
  Put-get db b db' j p other =
      let last = B.get-commit p.t' j p.committed in
      let first = B.get-set (begin db) (block_key b.height) p.text j p.t_set in
      elim (Bool-cases (leb p.current b.height)) [
        | inl moves ↦
            let moved : set p.t key_head (put_u64 b.height) ≡ ok p.t' = rw moves at p.t'_set in
            ground (arith, last, first, B.get-set p.t key_head (put_u64 b.height) j moved)
        | inr stays ↦
            let same : ok p.t ≡ ok p.t' = rw stays at p.t'_set in ground (arith, last, first, same)
      ]

  get_block-put :
      (db : Db) (b : Block) (h : ℕ) (db' : Db)
      → RoundTrips J b
      → IsWord b.height
      → IsWord h
      → put_block B J db b ≡ ok db'
      → get_block B J db' h ≡ (if b.height == h then ok (some b) else get_block B J db h)
  unfolding get_block decode_block
  get_block-put db b h db' (text, m, u) hw kw e =
      let p = put_block-Put db b db' e in
      let read = Put-get db b db' (block_key h) p (eq-key_head-block_key h) in
      let marshalled = p.marshalled in ground (arith, read, eq-block_key b.height h hw kw)

  last_nonce-put :
      (db : Db) (b : Block) (a : Bytes) (db' : Db)
      → put_block B J db b ≡ ok db'
      → last_nonce B J db' a ≡ last_nonce B J db a
  unfolding last_nonce
  last_nonce-put db b a db' e =
      let p = put_block-Put db b db' e in
      let read = Put-get db b db' (nonce_key a) p (eq-key_head-nonce_key a) in
      ground (arith, read, eq-block_key-nonce_key b.height a)

  set_last_nonce-get :
      (db : Db) (a : Bytes) (n : ℕ) (db' : Db) (j : Bytes)
      → set_last_nonce B J db a n ≡ ok db'
      → get (begin db') j
        ≡ (if eq_bytes (nonce_key a) j then ok (some (put_u64 n)) else get (begin db) j)
  unfolding set_last_nonce
  set_last_nonce-get db a n db' j e =
      let (t, r, p) = split_chain _ (set (begin db) (nonce_key a) (put_u64 n)) e in
      B.get-commit t j r ∙ B.get-set (begin db) (nonce_key a) (put_u64 n) j p

  -- After a `PutBlock` that ended well the head is the larger of the old head and the block's
  -- height, so it never falls.
  pub head-put_block :
      (db : Db) (b : Block) (old : ℕ) {db' : Db}
      → IsWord b.height
      → head B J db ≡ ok old
      → put_block B J db b ≡ ok db'
      → head B J db' ≡ ok (if leb old b.height then b.height else old)
  unfolding head advance_head read_u64
  head-put_block db b old {db'} w h e =
      let p = put_block-Put db b db' e in
      let first = B.get-set (begin db) (block_key b.height) p.text key_head p.t_set in
      let last = B.get-commit p.t' key_head p.committed in
      let got = p.stored_got in
      let read = p.current_read in
      elim (Bool-cases (leb p.current b.height)) [
        | inl moves ↦
            let moved : set p.t key_head (put_u64 b.height) ≡ ok p.t' = rw moves at p.t'_set in
            ground (
              arith,
              last,
              first,
              eq-block_key-key_head b.height,
              B.get-set p.t key_head (put_u64 b.height) key_head moved,
              uint64-put_u64 b.height w,
              eq_bytes_refl key_head,
            )
        | inr stays ↦
            let same : ok p.t ≡ ok p.t' = rw stays at p.t'_set in
            ground (arith, last, first, eq-block_key-key_head b.height, same)
      ]

  head-set_last_nonce :
      (db : Db) (a : Bytes) (n : ℕ) (db' : Db)
      → set_last_nonce B J db a n ≡ ok db'
      → head B J db' ≡ head B J db
  unfolding head
  head-set_last_nonce db a n db' e =
      ground (arith, set_last_nonce-get db a n db' key_head e, eq-nonce_key-key_head a)

  -- The store over BadgerDB is a block store. After a `PutBlock`, its height reads as the block, which
  -- `encoding/json` must give back as it was, every other height as before, the head as the larger of
  -- the height and the old head, if that could be read, so that it never falls, and every nonce as
  -- before. After a `SetLastNonce`, its address reads as the nonce, and every other address, every
  -- height and the head as before. Heights and nonces are of 64 bits.
  pub store-IsBlockStore : IsBlockStore (store B J) (RoundTrips J)
  unfolding get_block last_nonce read_u64
  store-IsBlockStore = record {
    get_block-put_block = λ db b h {s' = db'} r hw kw e. get_block-put db b h db' r hw kw e;
    head-put_block = λ db b old {s' = db'} w h e. head-put_block db b old w h e;
    head-set_last_nonce = λ db a n {s' = db'} e. head-set_last_nonce db a n db' e;
    last_nonce-put_block = λ db b a {s' = db'} e. last_nonce-put db b a db' e;
    last_nonce-set_last_nonce = λ db a n k {s' = db'} w e. ground (
      arith,
      set_last_nonce-get db a n db' (nonce_key k) e,
      eq-nonce_key a k,
      uint64-put_u64 n w,
    );
    get_block-set_last_nonce = λ db a n h {s' = db'} e.
        ground (arith, set_last_nonce-get db a n db' (block_key h) e, eq-nonce_key-block_key a h);
  }
