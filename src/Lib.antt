-- ===== src/Lib.antt =====
-- open_chat: the ledger, the message pool, the consensus engine, the gateway and the relay of the
-- node in app/golang, the client package, and the stores of the messenger in app/fyne.
--
-- A node admits signed messages (transactions) to its pool, a validator builds blocks from the
-- pool, the validators agree on a block by two rounds of votes, and each ledger appends what
-- carries a quorum of precommits. Clients hear of committed messages by subscription and find
-- nodes by the registry. A relay takes no part in the votes: it copies the ledger from gossip and
-- from the answers of validators, registers with them, and is probed by them. A client derives its
-- keys from a mnemonic, finds a gateway and fails over to another, seals, signs and sends its texts,
-- hears new ones over a stream, and recovers the old ones from the blocks; the app keeps them with
-- the address book in a file, and the mnemonic sealed with a PIN in another.
--
-- Which file is about which part (paths from app/golang):
--   Blockchain/Transaction, Blockchain/Block, Blockchain/Chain
--     internal/blockchain/transaction.go, block.go, chain.go
--   Mempool           internal/mempool/mempool.go
--   Storage           internal/storage/store.go
--   Consensus/Quorum  internal/consensus/util.go
--   Consensus/Vote    internal/consensus/types.go
--   Consensus/Engine  internal/consensus/pbft.go: the maps, the handlers of the topics, gc
--   Consensus/Round   internal/consensus/pbft.go: Run, runHeight, runRound, waitFor
--   Gateway/Registry  internal/grpcserver/registry.go
--   Gateway/Wire      internal/grpcserver/convert.go, pb/messages.go
--   Gateway/Proofs    pkg/authproof/authproof.go, pkg/relayproof/relayproof.go
--   Gateway/Server    internal/grpcserver/server.go
--   Relay             cmd/node/relay.go: announcements, sync, the health of relays
--   Node/Config, Node/Lists
--     internal/config/config.go
--   Node/Registrar    cmd/node/relay.go: the registration, the heartbeat, the probe
--   Node/Program      cmd/node/main.go, durability.go
--   Network           internal/p2p/host.go
--   Commands          cmd/client/main.go, cmd/keytool/main.go
--   Client/Keys, Client/Sealing
--     pkg/crypto/keys.go, cipher.go
--   Client/Wallet, Client/Envelope, Client/ContactCode, Client/Discovery
--     pkg/client/wallet.go, tx.go, contactcode.go, discovery.go
--   Client/Sending, Client/Listening, Client/History
--     pkg/client/client.go: SendMessage, Listen, FetchHistory
--   Client/Primitives the calls of the cryptographic packages, as a parameter
--   Mobile            mobile/session.go, history.go, wallet.go
--   App               internal/app of app/fyne: chat_store.go, service.go, wallet_store.go
--   Crypto            the calls of crypto/sha256 and crypto/ed25519, as a parameter
--   Go                strings, big-endian and hexadecimal text, %d, int64 and maps of Go
--   Prelude           the names and lemmas that all share
--   Examples          concrete values
-- Names follow the source: `CommitBlock` is `commit_block`, `Vote.SigningBytes` is
-- `Vote.signing_bytes`, the method `Add` of the pool is `Mempool.add`.
--
-- State and errors. A component's state is a record, an operation takes it and returns it with the
-- result; an error is a value, and what was written in front of an error stays. Strings are lists
-- of bytes, a uint64 or int64 is its 64-bit pattern, and wrap-around is written out. Go maps are
-- association lists in the order of insertion. What a mutex guards is one step, and the round of
-- the engine is a state machine in which messages arrive between the looks of `waitFor` at its
-- condition, and the deadline may pass at any time.
--
-- Parameters are the hash and the signature scheme, BadgerDB's transactions, encoding/json, the
-- token buckets of x/time/rate, the clock, and whether a `Publish` succeeds; for the client the
-- calls of x25519, HKDF, AES-GCM and BIP-39, the dials and answers of the gateways, the random
-- bytes, and the shuffle of the gateways; for the app its files and scrypt; for
-- the identity in the network the keys and peer ids of libp2p. The ledger stands on
-- the port `BlockStore` and its laws `IsBlockStore`, which Storage/Laws fills.
--
-- Fuel: the loop of `ComputeMerkleRoot` has as much as the layer is long, which is enough as each
-- turn shortens the layer. The loop of `%d` has as much as the number, which it divides by ten.
-- The rounds of a dial, the turns of a listener and those of a history scan have fuel for so many
-- turns; the scan ends within one turn more than there are blocks left, and a dial in the round in
-- which a candidate answers. Trimming has the length of the text, which each turn shortens.
--
-- Not modelled: TLS, the gRPC glue, logging and metrics, which are I/O; libp2p, whose deliveries are
-- the messages that arrive and whose dials are arguments; the rest of the node's wiring, the parsing
-- of flags, and the screens of the apps. Time passes only as the argument of an operation.
pub mod Prelude
pub mod Go
pub mod Crypto
pub mod Blockchain
pub mod Storage
pub mod Mempool
pub mod Consensus
pub mod Gateway
pub mod Relay
pub mod Client
pub mod App
pub mod Node
pub mod Mobile
pub mod Network
pub mod Commands
pub mod Examples
