-- ===== src/Lib.antt =====
-- A verification of the livepeer node: the payment protocol between broadcasters and orchestrators,
-- and the accounting on either side.
--
-- Pm (pm/): tickets and their hashed bytes (Ticket: pm/ticket.go), validation (Validator:
-- pm/validator.go), the recipient with its replay protection and the parameters it advertises
-- (Recipient: pm/recipient.go), the sender with its sessions and batches (Sender:
-- pm/sender.go), what is tracked of remote senders (Monitor: pm/sendermonitor.go),
-- and the tickets that wait for their redemption (Queue: pm/queue.go) in the database
-- (Queue/Database: common/db.go).
-- Eth (eth/): the cached deposits and reserves (Watchers/SenderWatcher:
-- eth/watchers/senderwatcher.go), and the cached rounds and L1 blocks (Watchers/TimeWatcher:
-- eth/watchers/timewatcher.go), by which a member of the active set is chosen to initialize a round
-- (RoundInitializer: eth/roundinitializer.go).
-- Eth also has the transaction nonces (NonceManager: eth/noncemanager.go), the replacement of
-- transactions that are not mined in time (TransactionManager: eth/transactionManager.go), the
-- Merkle trees of hashes (Types/MerkleTree: eth/types/merkletree.go), and the block watcher
-- (BlockWatch): its stack of headers (Stack: eth/blockwatch/stack.go) over the store of the database
-- (Stack/Database: common/db.go), the canonical chain that it follows through reorganisations, its
-- requests for logs and the backfill of missed blocks (Watcher, Logs, Backfill:
-- eth/blockwatch/block_watcher.go).
-- Server (server/): the suspension of orchestrators (Suspensions: server/suspensions.go), the choice
-- of sessions (Selection: server/selection.go), the pools that keep them (SessionPool:
-- server/broadcast.go), and the manager that picks sessions of two pools and the results of a
-- segment (SessionsManager: server/broadcast.go).
-- Core (core/): credit balances per address and stream (Accounting: core/accounting.go),
-- the payments that an orchestrator processes (Orchestrator: core/orchestrator.go), the
-- capabilities of jobs and nodes (Capabilities: core/capabilities.go), and the balancing of sessions
-- over transcoders, local (LoadBalancer: core/lb.go) and remote (RemoteTranscoders:
-- core/orchestrator.go), and the playlists of recorded streams (Playlist: core/playlistmanager.go).
--
-- Handlers are functions from a state record to a result and the state after the call. Go maps are
-- functions into Option, errors are the constructors of a data type, and a mutex is the atomicity
-- of a call. big.Int values that come off the wire or from the configuration are natural numbers;
-- those that can be negative are integers. big.Rat is a fraction that is compared by cross
-- multiplication. `Int64` of a big.Int is its low 64 bits, as in math/big. Loops are
-- structural, but eight have fuel: `big.Int.Bytes` (a number has no more bytes than its value), the
-- common divisor of `big.NewRat` (the second number, which each step makes smaller),
-- `buildMerkleTree` (the number of hashes), `filterLogsRecursively` (the number of blocks), the
-- chunks of `getLogsInBlockRange` (the number of ranges), `selectSessions` of a pool (the sessions
-- of the selector and the last ones), `selectTranscoder` (the number of transcoders), and the binary
-- search of `AddTrack` (the number of segments). Each half of a split is shorter, and each pass of a
-- selection takes or drops a session or a transcoder, so that this is enough.
--
-- The parts meet where the program composes them: ProcessPayment calls the recipient and the
-- balances, the ticket queue redeems through the sender monitor, the backfill of blocks uses the
-- fetch of logs and the stack of headers, and a session pool uses the suspensions and, through an
-- interface with laws that both selectors fill, a selector.
--
-- go-ethereum's hashes, byte forms and signature checks are the interface of Crypto.antt, with the
-- documented laws that proofs rely on. What other services answer (sender manager, gas price,
-- time manager, signer, Ethereum node, container/heap, random numbers) is an argument of the call
-- that asks, or a parameter with laws. The stores of tickets and of block headers are interfaces
-- with laws, which allow a ticket store to fail, and which the tables of the database fill.
--
-- Not modelled: network, storage and process code (media server, RPC handlers, transcoding, chain
-- clients, SQLite and the other tables of the database, drivers, commands), generated bindings, and
-- the orchestrator prices.
pub mod Base
pub mod Crypto
pub mod Pm
pub mod Core
pub mod Eth
pub mod Server
