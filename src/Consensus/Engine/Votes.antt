-- ===== src/Consensus/Engine/Votes.antt =====
-- The invariant of the vote maps: what stands there was checked, and each voter has one vote.
use open_chat.Prelude.{
  ◌≡◌, refl, subst, true, List, [], ◌∷◌, arith, if◌then◌else◌, All, All-append, Bool-cases,
  Option-cases, inl, inr,
}
use open_chat.Go.Bytes.{Bytes, eq_bytes, eq_bytes_iff}
use open_chat.Go.Map.{
  Map, contains, lookup, keys, IsDistinct, insert_new, insert-IsDistinct, lookup-insert,
}
use open_chat.Crypto.{Crypto}
use open_chat.Consensus.Vote
use open_chat.Consensus.Vote.{Vote, VoteType, prevote, precommit, other}
use open_chat.Consensus.Engine.{
  Engine, Codec, round_key, bucket_of, type_eq, add_vote, record_vote, store_vote, accepts,
  handle_vote,
}

bucket_of-record_vote :
    (bucket : Map (Map Vote)) (v : Vote) (key : Bytes)
    → bucket_of (record_vote bucket v) key ≡ (
        if eq_bytes (round_key v.height v.round) key
        then add_vote (bucket_of bucket (round_key v.height v.round)) v
        else bucket_of bucket key)
unfolding record_vote
bucket_of-record_vote bucket v key =
    let own = round_key v.height v.round in
    ground (arith, lookup-insert bucket own key (add_vote (bucket_of bucket own) v))

-- The two types that the engine has topics for.
abbrev pub IsPhase : VoteType → Type 0
IsPhase prevote = Unit {0}
IsPhase precommit = Unit {0}
IsPhase (other n) = ⊥

type_eq-eq : (s t : VoteType) → type_eq s t ≡ true → s ≡ t
type_eq-eq prevote prevote h = refl
type_eq-eq precommit precommit h = refl
type_eq-eq prevote precommit h = cc
type_eq-eq prevote (other n) h = cc
type_eq-eq precommit prevote h = cc
type_eq-eq precommit (other n) h = cc
type_eq-eq (other n) t h = cc

module _ (c : Crypto) (vs : List Bytes) where
  -- A vote that may stand under a voter and a key.
  pub record IsCounted (type : VoteType) (key : Bytes) (voter : Bytes) (v : Vote) : Type 0 where
    pub own_voter : v.voter ≡ voter
    pub own_key : round_key v.height v.round ≡ key
    pub typed : v.type ≡ type
    pub verified : Vote.verify c v ≡ true
    pub member : contains vs v.voter ≡ true

  -- One vote for each voter, and all of them counted rightly.
  abbrev pub AreVotes : VoteType → Bytes → Map Vote → Type 0
  AreVotes type key m =
      IsDistinct (keys m) × All (λ (e : Bytes × Vote). IsCounted type key e.0 e.1) m

  abbrev pub IsBucket : VoteType → Map (Map Vote) → Type 0
  IsBucket type bucket = (key : Bytes) → AreVotes type key (bucket_of bucket key)

  add_vote-AreVotes :
      (type : VoteType) (key : Bytes) (m : Map Vote) (v : Vote)
      → AreVotes type key m
      → IsCounted type key v.voter v
      → AreVotes type key (add_vote m v)
  unfolding add_vote
  add_vote-AreVotes type key m v (d, a) ok = elim (Option-cases (lookup m v.voter)) [
    | inr (old, e) ↦ rw (e, add_vote) (d, a)
    | inl e ↦
        rw (e, add_vote)
          (
            insert-IsDistinct m v.voter v d,
            rw (insert_new m v.voter v e) (All-append _ m ((v.voter, v) ∷ []) a (ok, tt)),
          )
  ]

  record_vote-IsBucket :
      (type : VoteType) (bucket : Map (Map Vote)) (v : Vote)
      → IsCounted type (round_key v.height v.round) v.voter v
      → IsBucket type bucket
      → IsBucket type (record_vote bucket v)
  record_vote-IsBucket type bucket v ok ih key =
      let own = round_key v.height v.round in
      elim (Bool-cases (eq_bytes own key)) [
        | inl same ↦
            let e = (eq_bytes_iff own key).0 same in
            rw (bucket_of-record_vote bucket v key) (
              rw same (
                subst (λ (k : Bytes). AreVotes type k (add_vote (bucket_of bucket own) v)) e
                  (add_vote-AreVotes type own (bucket_of bucket own) v (ih own) ok)))
        | inr different ↦ rw (bucket_of-record_vote bucket v key) (rw different (ih key))
      ]

  -- What the engine holds has been checked, for every height and round.
  pub record IsSound (e : Engine) : Type 0 where
    pub members : e.validator_set ≡ vs
    pub prevotes_sound : IsBucket prevote e.prevotes
    pub precommits_sound : IsBucket precommit e.precommits

  accepted-IsCounted :
      (e : Engine) (want : VoteType) (v : Vote)
      → e.validator_set ≡ vs
      → accepts c e want v ≡ true
      → (v.type ≡ want) × IsCounted want (round_key v.height v.round) v.voter v
  unfolding accepts
  accepted-IsCounted e want v m h =
      let typed = type_eq-eq v.type want (ground arith) in
      (
        typed,
        record {
          own_voter = refl;
          own_key = refl;
          typed = typed;
          verified = ground arith;
          member = ground arith;
        },
      )

  store_vote-IsSound :
      (e : Engine) (want : VoteType) (v : Vote)
      → IsCounted want (round_key v.height v.round) v.voter v
      → IsPhase want
      → IsSound e
      → IsSound (store_vote e want v)
  store_vote-IsSound e prevote v ok phase s = record {
    members = s.members;
    prevotes_sound = record_vote-IsBucket prevote e.prevotes v ok s.prevotes_sound;
    precommits_sound = s.precommits_sound;
  }
  store_vote-IsSound e precommit v ok phase s = record {
    members = s.members;
    prevotes_sound = s.prevotes_sound;
    precommits_sound = record_vote-IsBucket precommit e.precommits v ok s.precommits_sound;
  }
  store_vote-IsSound e (other n) v ok n_phase s = absurd n_phase

  pub handle_vote-IsSound :
      (codec : Codec) (e : Engine) (want : VoteType) (message : Bytes)
      → IsPhase want
      → IsSound e
      → IsSound (handle_vote c codec e want message)
  unfolding handle_vote
  handle_vote-IsSound codec e want message phase s =
      elim (Option-cases (codec.unmarshal_vote message)) [
        | inl none_sent ↦ rw (none_sent, handle_vote) s
        | inr (v, sent) ↦ elim (Bool-cases (accepts c e want v)) [
          | inl good ↦
              rw (sent, handle_vote)
                (rw good (
                  store_vote-IsSound e want v (accepted-IsCounted e want v s.members good).1 phase
                    s))
          | inr bad ↦ rw (sent, handle_vote) (rw bad s)
        ]
      ]
