-- ===== src/Lib.antt =====
-- muxdeck: a model of the desktop daemon that a phone or tablet drives as a deck of buttons.
--
-- A device connects over a websocket, pairs once with a one-time code, and afterwards proves with its
-- key who it is. The daemon checks each request against a capability matrix, injects keys, text and
-- mouse events through a backend of the platform, and keeps the paired devices, the layouts, the named
-- shell actions and the settings in JSON files. Every path below starts at the repository's root.
--
-- Prelude: what the program uses of Rust. Prelude/Tests (comparisons), Results (`Result`, `?`), Text
-- (bytes of a string, `trim`, `format!`), Map (`BTreeMap`, a list in rising order of its keys), Sets
-- (`HashSet`), Bits (when `|` and `^` give zero), Sorting (`sort_unstable`, `dedup`), Utf16
-- (`encode_utf16`), Lines (`lines`, `rsplit`, `trim_matches`), Lists.
--
-- Protocol: engine/crates/muxdeck-core/src. KnownOps, Ops and Envelope and Errors model envelope.rs;
-- Session, Signing, Pairing, Settings, Actions, Profiles model the files of the same names; Keys
-- and Input model input.rs.
--
-- Input: the backends of engine/crates/muxdeck-input/src. Input/Linux is linux/backend.rs (`key_combo`,
-- `emit`, `create`), Input/Windows is windows.rs (`send`, `key_combo`, `text`, `mouse`), Input/Macos is
-- macos/backend.rs (`key_combo`, whose first half is Macos/Plan, `post_keys`, `post_media`, `mouse`;
-- `chunk_by_utf16` is Macos/Chunks). Below each of them Keymap and Codes are the key table of the system
-- (linux/keymap.rs, keymap.rs, macos/keymap.rs), Table proves it injective, and Release follows a combo
-- through a keyboard that may take only a part of a batch; Input/Tables puts the three tables side by
-- side. uinput, `SendInput` and Quartz are records of calls on a desktop state; what Release needs of
-- them is a law that says which keys a call moves.
--
-- Engine: engine/crates/muxdeck-engine/src, with the interface of the backends and the two that need no
-- system (lib.rs, mock.rs and null.rs of muxdeck-input).
-- Engine/Session is session.rs (`handle_hello`, `handle_auth`), Engine/Dispatch is dispatch.rs
-- (`access_for`, `authorize`), Engine/Pairing is pairing.rs (`verify_pair_request`), Engine/Registry is
-- registry.rs, Engine/Store is store.rs, Engine/Actions is actions.rs, Engine/Host is engine.rs
-- (`apply_settings`, `run_action`), Engine/Disk is the file part of config.rs (`write_atomic`),
-- Engine/Identity is the part of identity.rs that computes, Engine/Backend is lib.rs, mock.rs and
-- null.rs of muxdeck-input, Engine/InputDispatch is input_dispatch.rs, and Engine/Server is server.rs:
-- `route`, the arms of `handle_envelope` in Server/Devices and Server/Content, `handle_input`, the end of
-- `connection` in Server/Connection and its loop with `handle_text` in Server/Loop; it composes all the
-- others. Engine/Service is service.rs: Texts and Escape the files
-- that register the daemon, Outputs what is read of the tools' answers, Tool its `mod tool`, Linux,
-- Macos and Windows its three `mod platform`, Targets the functions that choose among them; Bytes,
-- Names, Removal, Unregistered, Keeping and Registered hold proofs. Engine/Secrets is secret_file.rs,
-- Engine/Telemetry is the loop of telemetry.rs turn by turn, each with the settings that it reads, Engine/Discovery is `sanitise` of
-- discovery.rs. A child module proves what its name says of its parent; of the server,
-- Keeps, Moves and Sound follow each handler, and Access, Window, Live, Sound/Trace, Remote and Closed whole requests
-- and runs of them by any number of sockets. A run takes each handler as one step. The program locks the
-- registry, the pairing window and the other parts one by one; Server/Race takes the handler of
-- `pair.request` lock by lock, next to another one on a second thread. What other handlers do between
-- their locks is not modelled.
--
-- State is passed: an operation takes the state and gives its result with the new one. What other code
-- answers is an argument: the clock, the random bytes, each write and rename of a file, the start of a
-- process, a task that is lost, the change of the startup entry, the mDNS advertisement, each run of a
-- system tool. Ed25519, SHA-256 and base64 are the interface Engine/Crypto; serde_json is a codec at each type. The laws that
-- a proof needs of them (base64 and JSON decode what they encode) are hypotheses of the theorems that
-- use them.
--
-- Numbers are natural numbers; the total of a sequence keeps its 64-bit wrap-around. No definition
-- runs on fuel except the decimal digits of a number, whose fuel is the number's successor; the loop that
-- draws a one-time code runs over the list of its draws.
--
-- Examples holds a concrete instance of each interface and the theorems at concrete inputs.
--
-- Not modelled: the serialisation of frames, TLS and the listener, which of several ready events `select!`
-- takes and how time passes (a list of occurrences stands for both; server.rs), the records and the
-- daemon of mDNS (discovery.rs), the timer and the readings of telemetry.rs, generation of keys and
-- certificates, the admin client, the command line, and the Dart applications: they are input and
-- output, calls of libraries and of the operating system, or separate programs. 64-bit floats are
-- parameters.
mod Prelude
pub mod Protocol
pub mod Input
pub mod Engine
mod Examples
