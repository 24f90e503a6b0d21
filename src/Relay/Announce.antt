-- ===== src/Relay/Announce.antt =====
-- Whom a node believes about other nodes.
use open_chat.Prelude.{
  ap, subst, Result-cases, [], not, ◌&&◌, if◌then◌else◌, ℕ, ◌≡◌, refl, true, ◌++◌, inl, inr, some,
  List, arith, ok, Option-cases, Bool-cases,
}
use open_chat.Go.Bytes.{Bytes, eq_bytes}
use open_chat.Go.BigEndian.{put_u64}
use open_chat.Go.Hex.{decode}
use open_chat.Go.Map.{contains}
use open_chat.Crypto.{Crypto}
use open_chat.Blockchain.Transaction.{as_public_key}
use open_chat.Consensus.Engine.{Identity}
use open_chat.Gateway.Registry.{Registry, GatewayInfo, get}
use open_chat.Gateway.Registry.Views.{get-upsert}
use open_chat.Relay.{NodeAnnounce, AnnounceCodec, announce_bytes, new_announce, vouched, hear}

module _ (c : Crypto) where
  -- A message that decodes to an announcement of a gateway, signed with the key of an address in the
  -- validator set.
  pub record IsGenuine (J : AnnounceCodec) (validators : List Bytes) (message : Bytes)
      : Type 0 where
    pub announce : NodeAnnounce
    pub info : GatewayInfo
    pub key : Bytes
    pub received : J.unmarshal_announce message ≡ some announce
    pub described : J.unmarshal_info announce.info_json ≡ some info
    pub member : contains validators announce.announced_by ≡ true
    pub own_key : as_public_key (decode announce.announced_by) ≡ ok key
    pub signed :
        c.verify key (announce.info_json ++ put_u64 announce.timestamp) announce.signature ≡ true

  vouched-key :
      (validators : List Bytes) (ann : NodeAnnounce)
      → vouched c validators ann ≡ true
      → (contains validators ann.announced_by ≡ true)
        × ((key : Bytes) × (as_public_key (decode ann.announced_by) ≡ ok key)
            × (c.verify key (ann.info_json ++ put_u64 ann.timestamp) ann.signature ≡ true))
  unfolding vouched announce_bytes
  vouched-key validators ann trusted =
      elim (Result-cases (as_public_key (decode ann.announced_by))) [
        | inl (e, bad) ↦ absurd (ground (arith, bad, trusted))
        | inr (key, good) ↦
            (ground (arith, good, trusted), (key, good, ground (arith, good, trusted)))
      ]

  IsGenuine-vouched :
      (J : AnnounceCodec) (validators : List Bytes) (message : Bytes)
      → (g : IsGenuine J validators message) → vouched c validators g.announce ≡ true
  unfolding vouched announce_bytes
  IsGenuine-vouched J validators message g = ground (arith, g.member, g.own_key, g.signed)

  -- What a message on the announcement topic, from anybody, does to the gateway at an address.
  pub data Hearing (J : AnnounceCodec) (validators : List Bytes) (r : Registry) (message : Bytes)
      (now : ℕ) (address : Bytes) : Type 0 where
    ignored :
        ¬ IsGenuine J validators message
        → hear c J validators r message now ≡ r
        → Hearing J validators r message now address
    taken :
        (g : IsGenuine J validators message)
        → get (hear c J validators r message now) address ≡ (
            if not (eq_bytes g.info.grpc_address []) && eq_bytes g.info.grpc_address address
            then some (record g.info { last_seen_unix = now })
            else get r address)
        → Hearing J validators r message now address

  -- A message on the announcement topic, from anybody, that is not genuine leaves the registry as it
  -- is: one that does not decode to an announcement of a gateway, or that no address in the validator
  -- set has signed with its own key. A genuine one makes the registry hold the gateway that it names,
  -- if that has an endpoint, as just seen, and every other gateway as before.
  pub hear-Hearing :
      (J : AnnounceCodec) (validators : List Bytes) (r : Registry) (message : Bytes) (now : ℕ)
      (address : Bytes)
      → Hearing J validators r message now address
  unfolding hear
  hear-Hearing J validators r message now address =
      elim (Option-cases (J.unmarshal_announce message)) [
        | inl garbled ↦ ignored (λ g. let got = g.received in absurd cc) (rw (garbled, hear) refl)
        | inr (ann, received) ↦
            let same : (g : IsGenuine J validators message) → g.announce ≡ ann =
              λ g. let got = g.received in cc in
            elim (Bool-cases (vouched c validators ann)) [
              | inr doubtful ↦
                  ignored
                    (λ g.
                      let real =
                        subst (λ (a : NodeAnnounce). vouched c validators a ≡ true) (same g)
                          (IsGenuine-vouched J validators message g) in
                      absurd cc)
                    (rw (received, hear) (rw doubtful refl))
              | inl trusted ↦ elim (Option-cases (J.unmarshal_info ann.info_json)) [
                | inl unclear ↦
                    ignored
                      (λ g.
                        let real =
                          ap (λ (a : NodeAnnounce). J.unmarshal_info a.info_json) (same g) in
                        let got = g.described in absurd cc)
                      (rw (received, hear) (rw trusted (rw unclear refl)))
                | inr (info, described) ↦
                    let (member, (key, own_key, signed)) = vouched-key validators ann trusted in
                    taken
                      (record {
                        announce = ann;
                        info = info;
                        key = key;
                        received = received;
                        described = described;
                        member = member;
                        own_key = own_key;
                        signed = signed;
                      })
                      (rw (received, hear)
                        (rw trusted (rw described (ground (arith, get-upsert r info now address)))))
              ]
            ]
      ]

  -- Nobody outside the validator set is vouched for, and a validator's own announcement always is.
  pub vouched-new_announce :
      (validators : List Bytes) (self : Identity) (info_json : Bytes) (now : ℕ)
      → as_public_key (decode self.address) ≡ ok (c.public_key self.priv)
      → vouched c validators (new_announce c self info_json now) ≡ contains validators self.address
  unfolding vouched new_announce announce_bytes
  vouched-new_announce validators self info_json now own =
      ground (arith, own, c.verify-sign self.priv (info_json ++ put_u64 now))
