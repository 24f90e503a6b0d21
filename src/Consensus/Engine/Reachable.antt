-- ===== src/Consensus/Engine/Reachable.antt =====
-- The invariant of the vote maps holds after any messages.
use open_chat.Prelude.{
  ℕ, ◌≡◌, refl, sym, subst, ◌∙◌, List, [], ◌∷◌, arith, if◌then◌else◌, Bool-cases, inl, inr,
}
use open_chat.Go.Bytes.{Bytes}
use open_chat.Go.Map.{Map, lookup}
use open_chat.Crypto.{Crypto}
use open_chat.Consensus.Vote.{Vote, VoteType, prevote, precommit}
use open_chat.Consensus.Engine.{
  Engine, Codec, Config, Identity, bucket_of, handle_vote, handle_proposal, store_proposal, gc,
  new_engine, sort_strings, without_prefix, has_prefix,
}
use open_chat.Consensus.Engine.Rounds.{lookup-without_prefix}
use open_chat.Consensus.Engine.Votes.{IsSound, IsBucket, handle_vote-IsSound}

-- A proposal changes neither the votes nor the validators.
handle_proposal-keeps :
    (codec : Codec) (e : Engine) (message : Bytes)
    → ((handle_proposal codec e message).validator_set ≡ e.validator_set)
      × ((handle_proposal codec e message).prevotes ≡ e.prevotes)
      × ((handle_proposal codec e message).precommits ≡ e.precommits)
unfolding handle_proposal store_proposal
handle_proposal-keeps codec e message = (ground arith, ground arith, ground arith)

bucket_of-without_prefix :
    (bucket : Map (Map Vote)) (p key : Bytes)
    → bucket_of (without_prefix bucket p) key
      ≡ (if has_prefix key p then [] else bucket_of bucket key)
unfolding bucket_of
bucket_of-without_prefix bucket p key = ground (arith, lookup-without_prefix bucket p key)

module _ (c : Crypto) (vs : List Bytes) where
  handle_proposal-IsSound :
      (codec : Codec) (e : Engine) (message : Bytes)
      → IsSound c vs e
      → IsSound c vs (handle_proposal codec e message)
  handle_proposal-IsSound codec e message s =
      let (same_set, same_pre, same_com) = handle_proposal-keeps codec e message in
      record {
        members = same_set ∙ s.members;
        prevotes_sound = subst (IsBucket c vs prevote) (sym same_pre) s.prevotes_sound;
        precommits_sound = subst (IsBucket c vs precommit) (sym same_com) s.precommits_sound;
      }

  cleared-IsBucket :
      (type : VoteType) (bucket : Map (Map Vote)) (p : Bytes)
      → IsBucket c vs type bucket
      → IsBucket c vs type (without_prefix bucket p)
  cleared-IsBucket type bucket p ih key = elim (Bool-cases (has_prefix key p)) [
    | inl hit ↦ rw (bucket_of-without_prefix bucket p key) (rw hit (tt, tt))
    | inr miss ↦ rw (bucket_of-without_prefix bucket p key) (rw miss (ih key))
  ]

  pub gc-IsSound : (e : Engine) (h : ℕ) → IsSound c vs e → IsSound c vs (gc e h)
  unfolding gc
  gc-IsSound e h s = record {
    members = s.members;
    prevotes_sound = cleared-IsBucket prevote e.prevotes _ s.prevotes_sound;
    precommits_sound = cleared-IsBucket precommit e.precommits _ s.precommits_sound;
  }

-- What reaches the engine: a message of a topic, or the end of a height.
pub data Event : Type 0 where
  proposal_message prevote_message precommit_message : Bytes → Event
  height_done : ℕ → Event

module _ (c : Crypto) (codec : Codec) where
  abbrev pub step : Engine → Event → Engine
  step e (proposal_message m) = handle_proposal codec e m
  step e (prevote_message m) = handle_vote c codec e prevote m
  step e (precommit_message m) = handle_vote c codec e precommit m
  step e (height_done h) = gc e h

  abbrev pub run : Engine → List Event → Engine
  run e [] = e
  run e (m ∷ ms) = run (step e m) ms

  pub step-IsSound :
      (vs : List Bytes) (e : Engine) (m : Event) → IsSound c vs e → IsSound c vs (step e m)
  step-IsSound vs e (proposal_message m) s = handle_proposal-IsSound c vs codec e m s
  step-IsSound vs e (prevote_message m) s = handle_vote-IsSound c vs codec e prevote m tt s
  step-IsSound vs e (precommit_message m) s = handle_vote-IsSound c vs codec e precommit m tt s
  step-IsSound vs e (height_done h) s = gc-IsSound c vs e h s

  pub run-IsSound :
      (vs : List Bytes) (e : Engine) (ms : List Event) → IsSound c vs e → IsSound c vs (run e ms)
  run-IsSound vs e [] s = s
  run-IsSound vs e (m ∷ ms) s = run-IsSound vs (step e m) ms (step-IsSound vs e m s)

  -- After any messages, from anybody, every vote that the engine holds under a height and round is
  -- for that height and round, has the type of its map and a valid signature of a configured
  -- validator, and no validator has two.
  pub reachable-IsSound :
      (cfg : Config) (self : Identity) (ms : List Event)
      → IsSound c (sort_strings cfg.validators) (run (new_engine cfg self) ms)
  unfolding new_engine bucket_of lookup
  reachable-IsSound cfg self ms =
      run-IsSound (sort_strings cfg.validators) (new_engine cfg self) ms (record {
        members = refl;
        prevotes_sound = λ key. (tt, tt);
        precommits_sound = λ key. (tt, tt);
      })
