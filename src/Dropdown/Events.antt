-- ===== src/Dropdown/Events.antt =====
-- EventLineParser and the reconnect policy of HyprlandEventStream: src/dropdown/hyprland_events.cpp
-- and its header. `connects` stands for the outcome of building the socket's path, the socket and
-- the connect call; the descriptor is a number, and time points are in milliseconds.
use waylaunch.Prelude.{ℕ, ◌*◌, Bool, true, false, ◌&&◌, Option, none, some, List, [], ◌∷◌, ◌++◌}
use waylaunch.Prelude.Tests.{ltb, ◌==◌, if◌then◌else◌}
use waylaunch.Prelude.Lists.{length}
use waylaunch.Prelude.Int.{ℤ, pos, ◌+ℤ◌, ltb_ℤ}
use waylaunch.Prelude.Text.{Text}

pub record HyprEvent : Type 0 where
  pub name : Text
  pub payload : Text

-- The complete lines of a buffer, and what stands after the last newline.
abbrev pub Lines : Type 0
Lines = List Text × Text

abbrev pub newline_before : Lines → Lines
newline_before (lines, rest) = ([] ∷ lines, rest)

abbrev pub byte_before : ℕ → Lines → Lines
byte_before c ([], rest) = ([], c ∷ rest)
byte_before c (l ∷ lines, rest) = ((c ∷ l) ∷ lines, rest)

unfoldable pub split_lines : Text → Lines
split_lines [] = ([], [])
split_lines (c ∷ s) =
    if c == 10 then newline_before (split_lines s) else byte_before c (split_lines s)

-- `pop_back` of a trailing carriage return.
unfoldable pub chomp : Text → Text
chomp [] = []
chomp (c ∷ []) = if c == 13 then [] else c ∷ []
chomp (c ∷ d ∷ s) = c ∷ chomp (d ∷ s)

abbrev pub name_before : ℕ → Option HyprEvent → Option HyprEvent
name_before c none = none
name_before c (some e) = some (record { name = c ∷ e.name; payload = e.payload })

-- The event of a line with a ">>" in it, split at the first one.
unfoldable pub parse_event : Text → Option HyprEvent
parse_event [] = none
parse_event (c ∷ []) = none
parse_event (c ∷ d ∷ s) =
    if c == b'>' && d == b'>'
    then some (record { name = []; payload = s })
    else name_before c (parse_event (d ∷ s))

abbrev pub event_before : Option HyprEvent → List HyprEvent → List HyprEvent
event_before none es = es
event_before (some e) es = e ∷ es

unfoldable pub events_of : List Text → List HyprEvent
events_of [] = []
events_of (l ∷ ls) = event_before (parse_event (chomp l)) (events_of ls)

abbrev pub max_buffered : ℕ
max_buffered = 65_536

abbrev pub bounded : Text → Text
bounded b = if ltb max_buffered (length b) then [] else b

-- The events of a chunk and the buffer left for the next.
unfoldable pub push : Text → Text → List HyprEvent × Text
push buffer chunk =
    let (lines, rest) = split_lines (buffer ++ chunk) in (events_of lines, bounded rest)

-- The reconnect policy.
pub record EventStream : Type 0 where
  pub fd : Option ℕ
  pub buffer : Text
  pub next_retry : ℤ
  pub backoff_ms : ℕ

unfoldable pub doubled : ℕ → ℕ
doubled b = if ltb 8000 (b * 2) then 8000 else b * 2

abbrev pub retry_later : EventStream → ℤ → EventStream
retry_later s now = record s {
  fd = none;
  next_retry = now +ℤ pos s.backoff_ms;
  backoff_ms = doubled s.backoff_ms;
}

connect_to : EventStream → ℤ → Option ℕ → Bool × EventStream
connect_to s now none = (false, retry_later s now)
connect_to s now (some fd) = (true, record s { fd = some fd; backoff_ms = 250 })

unfoldable pub ensure_connected : EventStream → ℤ → Option ℕ → Bool × EventStream
unfolding connect_to
ensure_connected s now connects = elim s.fd [
  | some fd ↦ (true, s)
  | none ↦ if ltb_ℤ now s.next_retry then (false, s) else connect_to s now connects
]

-- The outcomes of the read calls.
pub data Read : Type 0 where
  bytes : Text → Read
  eof : Read
  would_block : Read

-- The loop of read_available over the outcomes of its read calls, up to the one that ends it.
unfoldable pub read_loop : EventStream → ℤ → List Read → List HyprEvent × EventStream
read_loop s now [] = ([], s)
read_loop s now (Read.bytes b ∷ rs) =
    let (es, buf) = push s.buffer b in
    let (more, s') = read_loop (record s { buffer = buf }) now rs in (es ++ more, s')
read_loop s now (Read.eof ∷ rs) = ([], retry_later s now)
read_loop s now (Read.would_block ∷ rs) = ([], s)

unfoldable pub read_available : EventStream → ℤ → List Read → List HyprEvent × EventStream
read_available s now reads = elim s.fd [ none ↦ ([], s) | some fd ↦ read_loop s now reads ]
