-- ===== src/Lib.antt =====
-- The Go server of nadesiko-reversi, a two-player reversi whose rules run in a separate process.
--
-- A player meets another one in a room (server/internal/match) or plays both sides at one screen
-- (server/internal/localgame). Either holds the authoritative state of a game and asks the rule
-- engine, through server/internal/runtime, for each new state; requests and responses are checked
-- by server/internal/protocol. Finished games are kept and replayed by server/internal/replay.
--
-- Protocol: the types of protocol.go and errors.go (Types), board geometry (Board), the lists of
-- constants (Codes), the copies (Clone) and the Validate methods (Validate).
-- Runtime: Gonako.Evaluate, around what the process prints, a parameter.
-- Match: Hub is the Go channels, whose send and close on a closed channel set a fault; Room is one
-- room with its seats, phase and state, from join to leave; Manager is the assignment of players
-- to rooms. A method that holds a mutex from start to end is one function, so a history is a
-- sequence of calls; the manager's methods, which hold it in sections, are one step each as well.
-- Local: the service and the HTTP handler from the decoded request on.
-- Replay: the moves and records (Record), the store (Store) and the replay of a decoded record
-- (Replayer); a record as a text, written by encode.go (Encode), and read by decode.go, whose regular
-- expressions are readers (Grammar), line by line (Scan), and then run and checked (Decode); the
-- service over all of them (Service). Lines is the splitting and trimming of texts.
-- Server: main.go. The frames of a WebSocket as bytes (Frames, Bytes), the ledger that keeps the
-- moves of a room and saves the finished game (Ledger), the limit on commands (Limits), the settings
-- (Settings), the origins that are let in (Origin), the pages (Pages), and the loop over the frames of
-- one connection (Session), which runs on fuel: a round for each byte of the input is enough.
-- Prelude: texts as code points, Go's maps and ints, %d, and the helpers that all parts share.
-- Tests: the theorems at concrete values.
--
-- The rule engine is a function from requests to answers, `Runtime.Runner`, over which every
-- statement is general; where an answer must pass the checks of Response.Validate, the hypothesis is
-- `Runtime.Contract.IsContract`, which Gonako.Evaluate fulfils. The seed function, the random
-- generator, what a record prints when it is run and how that decodes are parameters, as are the
-- times and what main.go uses of net and net/url (`Server.Origin.Net`). An `int` is an integer
-- without bound; a colour and a seed are natural numbers. Besides that loop only the decimal digits run
-- on fuel: they get one unit more than the number and so never run out.
--
-- The float64 numbers of the token bucket are the numbers of their 64 bits, and their operations a
-- parameter (`Server.Limits.Float64`).
--
-- Not modelled: JSON and error texts, processes, files (LoadHarness, GonakoScriptRunner), HTTP writing
-- and logging, the goroutines of a connection (writeLoop, keepAlive, forwardEvents) with their timers,
-- the rest of the upgrade of a request, what handleMatch does before and after its loop, and the
-- rules themselves, which are written in Nadesiko (rules/game).
pub mod Prelude
pub mod Protocol
pub mod Runtime
pub mod Match
pub mod Local
pub mod Replay
pub mod Server
mod Tests
