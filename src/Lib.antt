-- ===== src/Lib.antt =====
-- The core of a Session messenger client, libsession-ui-core: keys and ids, the padding of messages,
-- the batching and caching of calls, the local database of messages, and the workers that keep it in
-- step with communities and swarms. Paths below are from the repository's root.
--
-- Padding: libsession-ui-core/src/crypto.rs, `pad_message` and `strip_message_padding`, on lists of
--   bytes. The encryption around them calls libsession and is not modelled.
-- Retrieve: libsession-ui-core/src/utils/sync/async_retrieve.rs, `SharedAsyncRetrieveState`. The lock
--   is held through a call, so each call is one step on `State`; time is a number, and a retrieval is
--   its outcome and the time at which it is done.
-- Batcher: libsession-ui-core/src/batcher.rs. `insert_to_batching`, `run_batch` and `execute` are
--   functions; the loop of the runner is the relation `Step` on the queue, the running batches and
--   the replies, and the order in which running batches finish is free. The upstream call with the
--   building and parsing of the batch belongs to the callers and is a function parameter. Where a
--   response has too few results the senders left over are dropped, which is `cancelled`. The trait
--   implementations of further types are instances of `Batchable` by the callers.
-- Key, SessionId: libsession-ui-core/src/key/macros.rs and libsession-ui-core/src/session_id.rs. The
--   types that one macro makes differ in a prefix or a list of variants, which are arguments here.
--   The crate hex is the parameter `HexCodec`, with what the code relies on as its laws; Key.Example
--   is a codec that has them. Serialisation and C string views are left out: a C string is its text.
-- Messages, Reactions, SyncState: libsession-ui-core/src/db/messages.rs, community_message_reaction.rs
--   and message_sync_state.rs beside it. A table is a list of rows, and each SQL statement is a
--   function on it, with the unique index and the checks of the schema in
--   libsession-ui-core/src/db/migrations/001-initial. Columns that are computed by SQLite are left out.
-- Sogs: libsession-ui-core/src/sogs_api/message.rs, the messages that a community server sends.
-- Community: libsession-ui-core/src/worker/community/download_community_messages.rs. The database is
--   one record, and a transaction takes effect as a whole or fails with a fault that the environment
--   chooses. The worker is a function of the list of its events: commands, polls with the server's
--   answers, and the closing of the command channel. The decoder of payloads is a parameter, since it
--   is libsession's.
-- Identity: libsession-ui-core/src/identity.rs, on Mnemonic and SessionId. What libsession makes of keys
--   and the crate hex are parameters.
-- Mnemonic: libsession-ui-core/src/mnemonic/codec.rs, `encode` and `decode`, and lang.rs beside it. A
--   slice or index out of range is the error `panic`, and the CRC-32 a parameter. The in-place loop
--   over chunks of eight characters is recursion on the text. `{:x}` has fuel 16, the most digits
--   that 64 bits have.
-- HttpCache: libsession-ui-core/src/http_api/caching.rs, `execute`, with the statements of
--   libsession-ui-core/src/db/http_cache.rs. Faults of the database and the answer of the underlying
--   executor are the environment's; the text of a header value is the parameter `HeaderCodec`. The
--   stub `trim_cache` is left out.
-- Swarm: libsession-ui-core/src/worker/poll_swarm_messages_once.rs, on the tables of SyncState, with
--   the request of libsession-ui-core/src/oxenss/retrieve.rs. The node, its answer and the signature
--   are the environment's; the closure that saves the messages is a parameter.
-- Errors: libsession-ui-core/src/utils/errors.rs. An error is the chain of its causes, in which only
--   the links that say whether to try again count.
-- ConfigTables: libsession-ui-core/src/db/config.rs, the tables of configs. What libsession lists of a
--   config object is data; the constraints of the schema are conditions under which a row is an error,
--   and the rows written before an error stay.
-- ConfigSync: libsession-ui-core/src/config/wrapper.rs and the tasks that push and dump in
--   libsession-ui-core/src/worker/sync_config.rs. The object is any type with the operations
--   `SyncOps`; the lock makes each use one step, and a callback is a number. The receiver of the push
--   requests is there until the push loop ends; what is queued then, or sent later, is dropped.
-- NonEmpty, Network: libsession-ui-core/src/utils/iter/non_empty.rs, and legacy.rs and swarm.rs of
--   libsession-ui-core/src/network, on the state of Retrieve and the errors of Errors. An exchange with
--   a node is what its steps meet; random choices are parameters.
-- GroupTasks: libsession-ui-core/src/worker/sync_generic_groups.rs, a function of the list of its
--   events: changes of the config, commands, and the ends of tasks. A channel of a task takes one
--   command and holds up the loop while it is full; the events are those that the loop gets through.
-- SendQueue: libsession-ui-core/src/worker/send_swarm_messages.rs, `send_and_sync_message`, on the table
--   of Messages. The encoder, the file server and the swarm are the environment's.
-- Files: encrypt.rs and decrypt.rs of libsession-ui-core/src/files, and `get_encrypted_file` of
--   libsession-ui-core/src/service/account/get_file.rs. The ciphers are parameters, with the lengths that
--   their crates document.
-- SyncMessages: libsession-ui-core/src/worker/sync_messages.rs, the polls of Swarm and the side channel
--   as events, on the table of Messages. The decoder of payloads is a parameter.
-- Dispatch: libsession-ui-core/src/oxenss/namespace.rs, and the channels that `handle_command` of
--   libsession-ui-core/src/worker/group/sync_group.rs sends to, used by GroupKeys. The dispatch of what
--   is pushed to an account, in sync_account.rs, is not modelled.
-- Accounts: libsession-ui-core/src/service/manager/state.rs. The map keeps its order; an account and its
--   router are numbers, and each use of the lock is one step.
-- MessageCodec: libsession-ui-core/src/oxenss/message.rs, on Padding. The protobuf code and the encryption
--   are parameters.
-- Settings: libsession-ui-core/src/db/app_setting.rs, an association list by name and id.
-- CommunityInfo: libsession-ui-core/src/worker/community/sync_community_info.rs, on Settings. A turn is what the
--   server answers and whether the database has a fault; the loop is over the turns.
-- CommunityAuth: libsession-ui-core/src/sogs_api/authenticated_executor.rs, with the choice of the identity and
--   the serving of commands of libsession-ui-core/src/worker/community/sync_community.rs. Signing and
--   hashing are libsession's, parameters. The events of the worker are the commands it takes and the
--   tasks that are done, in the order in which they are done; a task that is not done when the commands
--   end is dropped. The executor that batches, in front of the authenticated one, is left out here.
-- SogsBatch: libsession-ui-core/src/sogs_api/batch.rs, with the factory of sync_communities.rs, on Batcher.
--   The values and texts of JSON, base64 and media types are crates', the parameter `Encoding`; the
--   call that carries the batch is a parameter too.
-- GroupKeys: `sync_group` and `wait_for_group_keys` of
--   libsession-ui-core/src/worker/group/sync_group.rs, with the loops of `sync_config` for the keys and
--   `handle_command` of Dispatch, as steps of tasks over channels of one message. A sequence of steps
--   is any interleaving.
-- SwarmRequests: libsession-ui-core/src/oxenss/store.rs and `RetrieveMessageRequest::new` of
--   libsession-ui-core/src/oxenss/retrieve.rs, with libsession-ui-core/src/worker/group/auth.rs. What
--   libsession signs is a parameter.
-- Watcher: libsession-ui-core/src/utils/sync/watcher.rs. A receiver is a parameter over the world that
--   its senders make; `wake` takes the turns of the loop of `connect_to` as fuel, and as many turns as
--   the receiver reports changes in a row are enough.
-- Base: numbers are ℕ; ℤ is one over the same ℕ; texts are lists of code points. Decimal and
--   hexadecimal digits are on fuel that the number of digits does not exceed; all else is recursion on
--   lists or numbers.
--
-- Not modelled: onion requests, QUIC and HTTP transport, the calls of the C interface of
-- libsession, the routing of the service layer and the graphical clients. Of the workers of accounts
-- and of single groups and communities, what starts the other workers is not modelled: it joins tasks
-- that other parts define.
pub mod Base
pub mod Padding
pub mod Retrieve
pub mod Messages
pub mod Sogs
pub mod Reactions
pub mod SyncState
pub mod Community
pub mod Batcher
pub mod Key
pub mod SessionId
pub mod HttpCache
pub mod Swarm
pub mod Mnemonic
pub mod Errors
pub mod ConfigTables
pub mod ConfigSync
pub mod NonEmpty
pub mod Network
pub mod GroupTasks
pub mod SendQueue
pub mod Files
pub mod Accounts
pub mod SyncMessages
pub mod Dispatch
pub mod Watcher
pub mod Identity
pub mod Settings
pub mod CommunityInfo
pub mod CommunityAuth
pub mod MessageCodec
pub mod SogsBatch
pub mod GroupKeys
pub mod SwarmRequests
