-- ===== src/Lib.antt =====
-- pahoa: an Archipelago multiworld server. This library models parts of its crates and proves what
-- they compute. A connection's bytes become frames (pahoa-net, ws/frame.rs), frames become messages
-- (ws/message.rs), a message's text passes a depth guard (pahoa-proto, depth.rs) before it is
-- parsed, and the room answers from the tables of the seed (pahoa-multidata) and from its own
-- state, of which the hints (pahoa-room, hints.rs) are a part.
--
-- Prelude holds what the parts share: Boolean tests, lists and their lengths over the native
-- numbers, integers, results, decidable equality, hash maps as association lists, facts on bits,
-- text as bytes, and sorting. A hash set or map of the source is a list in the order of insertion.
--
-- Ws models crates/pahoa-net/src/ws. Ws/Frame.antt is frame.rs's reading side: `parse_header`, cut
-- into its steps, `decode_as` and `decode`, where the buffer is a list of bytes and the rest of it
-- is returned. Ws/Build.antt is its writing side (`build`, `build_masked`, `put_header`),
-- Ws/Close.antt its `close`, Ws/Mask.antt its `unmask`, with the machine's byte order as an
-- argument. Ws/Session.antt is message.rs: `Session::handle` with `finish` and `control`; a
-- `String` is its bytes, which Ws/Utf8.antt tests as `str::from_utf8` does. The inflater is that of
-- flate2: its state and `decompress` are parameters.
--
-- Budget.antt models crates/pahoa-net/src/budget.rs: the statics `QUEUED` and `PEAK` as `Counters`,
-- with the wrap-around of their sums and differences, and `reserve_reported`, `release` and
-- `release_all` as functions on them and a `ConnBudget`; a run is a list of these actions, each as
-- one step, so that what the atomics allow within one is left out.
--
-- Proto models crates/pahoa-proto/src: depth.rs in Proto/Depth.antt, `check_depth` as a scan with a
-- signed depth, which a document of fewer than 2^63 - 1 bytes keeps within an `i64`, and of
-- server.rs, client.rs, types.rs and arg.rs the messages and parts that the modelled handlers send
-- and read, in Proto/Packets.antt and its children.
--
-- Multidata models crates/pahoa-multidata/src: types.rs in Multidata/Types.antt and
-- Multidata/Statuses.antt, locations.rs in Multidata/Locations.antt. The index of (start, count) is
-- a list of pairs with 32-bit wrap-around; the two loops of `from_entries` are `index_runs` and
-- `run_length`, the library's binary search is `search_base`. Their fuel is the number of entries:
-- each round of the outer loop takes an entry at least, and each round of the search but the last
-- makes the part of the slice smaller. The proofs on `from_entries` and `binary_search` include
-- that this is enough.
--
-- Room models crates/pahoa-room/src. hints.rs is Room/Hints.antt: `HintStore` with its operations
-- as functions from store to store, `automatic_status`, `points` and `budget`;
-- Room/Hints/Collect.antt is what collects hints: `hintable_slots`, `collect_for_item`,
-- `collect_for_location` and `build`, and Room/Hints/Choose.antt is `choose`, with what it does to
-- the shuffled candidates in `grant`. The map's iteration order, which the source does not fix, is
-- the order of the association list; `recheck` sorts what it reports.
--
-- Of room.rs, Room/State.antt has the fields of `Room` that the modelled operations read or write.
-- A `World` is a room with the counters of redundant.rs and the effects of effect.rs, `Recorder`
-- and the packets sent, so that an operation is a function from world to world. Room/Client.antt is
-- conn.rs, Room/Options.antt is options.rs and Room/Secret.antt is secret.rs. Room/Queues.antt
-- queues an item for a slot or for the members of a group and delivers what is new to each
-- connection; Room/Checks.antt registers checks; Room/Sweeps.antt is release, collect and the
-- status of a client, which set one another off; Room/Announce.antt announces hints;
-- Room/Messages.antt builds what is said; Room/Requests.antt and its children are the handlers of
-- LocationChecks, LocationScouts, CreateHints, UpdateHint and StatusUpdate; Room/Connect.antt is
-- the part of `handle_connect` that collects the reasons for a refusal, and Room/Lifecycle.antt
-- with its child modules the rest of it, `on_connect`, `on_disconnect`, `handle_connect_update`,
-- `handle_sync` and `set_filter`, with the texts of conn.rs in Room/Tags.antt and
-- Prelude/Python.antt. What the source expects not to happen, an unknown connection or a name that
-- is not resolved where there is no reason for a refusal, leaves the model's world as it is. The
-- clock is the bits of its f64, and a hint's price from its percentage, the reading of a JSON
-- number and the rendering of a value are parameters. A group may have groups as members, and the
-- recursion of `send_item_to` on them is on fuel, one more than there are slots, which is enough
-- where no group contains itself through others.
--
-- Random models crates/pahoa-pyrandom/src. mt19937.rs is Random/Twister.antt: the twister's words
-- are numbers, shifts are products and quotients by powers of two, and sums and products are
-- reduced to 32 bits where the source wraps. Its loops are on the number of rounds to go. lib.rs is
-- Random/Draws.antt: seeding, with the hash of the sha2 crate as a parameter, draws of bits,
-- numbers below a bound and the shuffle. The loop of `randbelow` ends at the first draw below the
-- bound, which has no place fixed in advance; its rounds are fuel, and `none` is a loop that has
-- not ended.
--
-- filter.rs is Room/Filter.antt, with its child modules: the rules and their JSON, the decision on
-- a message, the edits and the sampler. The machine's floats, and how Rust writes a text for
-- debugging, are the parameter `Shares`.
--
-- Json.antt is the `Value` of serde_json, with a value for each number as its type parameter, and
-- its dictionaries in the order of insertion.
--
-- Datastore models crates/pahoa-datastore/src. pyvalue.rs, Python's numbers, equality and order, is
-- Datastore/Numbers.antt and Datastore/Values.antt. ops.rs is Datastore/Arith.antt (arithmetic,
-- bits and shifts), Datastore/Containers.antt (lists and dictionaries) and Datastore/Ops.antt
-- (`apply` and `apply_all`). Integers are those of num-bigint, held by value; the machine's floats
-- and the bitwise operations of num-bigint are the parameters `Floats` and `Bitwise`. The length of
-- a text is that of its bytes. `bit_count` halves a magnitude on fuel, which is that magnitude.
--
-- Not modelled: sockets, tasks and files; the HTTP surface; packets' JSON; pickles; of the room,
-- chat and its commands, its handlers of data storage, which kind of message a packet is to a
-- filter, saves and their versions; in locations.rs, the reading of a pickle; of the data storage,
-- the spelling of a float and the counters.
pub mod Prelude
pub mod Ws
pub mod Proto
pub mod Multidata
pub mod Room
pub mod Random
pub mod Budget
pub mod Json
pub mod Datastore
