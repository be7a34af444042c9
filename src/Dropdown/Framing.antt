-- ===== src/Dropdown/Framing.antt =====
-- The line framer gives the same events however the byte stream is cut into chunks.
use waylaunch.Prelude.{
  ℕ, ◌≡◌, ◌≢◌, ◌≤◌, refl, ap, sym, ◌∙◌, inl, inr, false, some, List, [], ◌∷◌, ◌++◌, arith,
}
use mathlib.Core.List.{append_assoc}
use waylaunch.Prelude.Tests.{◌==◌, Bool-cases, Option-cases}
use waylaunch.Prelude.Lists.{length, All}
use waylaunch.Prelude.Text.{Text}
use waylaunch.Dropdown.Events.{
  HyprEvent, Lines, split_lines, byte_before, newline_before, chomp, parse_event, events_of,
  max_buffered, push, bounded,
}

-- The lines of a chunk that follows text which was split before.
abbrev go_on : Lines → Text → Lines
go_on (lines, rest) t = let (more, rest') = split_lines (rest ++ t) in (lines ++ more, rest')

byte_go_on :
    (c : ℕ) (l : Lines) (t : Text)
    → (c == 10) ≡ false
    → byte_before c (go_on l t) ≡ go_on (byte_before c l) t
unfolding split_lines
byte_go_on c ([], rest) t h = rw h
byte_go_on c (l ∷ lines, rest) t h = refl

pub split_lines-append : (s t : Text) → split_lines (s ++ t) ≡ go_on (split_lines s) t
unfolding split_lines
split_lines-append [] t = refl
split_lines-append (c ∷ s) t = elim (Bool-cases (c == 10)) [
  | inl e ↦ rw e (ap newline_before (split_lines-append s t))
  | inr e ↦ rw e (ap (byte_before c) (split_lines-append s t) ∙ byte_go_on c (split_lines s) t e)
]

pub events_of-append : (ls ms : List Text) → events_of (ls ++ ms) ≡ events_of ls ++ events_of ms
unfolding events_of
events_of-append [] ms = refl
events_of-append (l ∷ ls) ms = elim (Option-cases (parse_event (chomp l))) [
  | inl e ↦ rw e (events_of-append ls ms)
  | inr (v, e) ↦ rw e (ap (◌∷◌ v) (events_of-append ls ms))
]

-- Two chunks one after the other give the events of the two together and leave the same buffer,
-- provided that the unfinished line after the first is within the bound on the buffer.
pub push-append :
    (buffer x y : Text)
    → length (split_lines (buffer ++ x)).1 ≤ max_buffered
    → push buffer (x ++ y)
      ≡ ((push buffer x).0 ++ (push (push buffer x).1 y).0, (push (push buffer x).1 y).1)
unfolding push
push-append buffer x y h =
    let kept : bounded (split_lines (buffer ++ x)).1 ≡ (split_lines (buffer ++ x)).1 =
      ground arith in
    let cut : split_lines (buffer ++ (x ++ y)) ≡ go_on (split_lines (buffer ++ x)) y =
      ap split_lines (sym (append_assoc buffer x y)) ∙ split_lines-append (buffer ++ x) y in
    rw kept (
      rw cut (
        rw (
          events_of-append (split_lines (buffer ++ x)).0
            (split_lines ((split_lines (buffer ++ x)).1 ++ y)).0)))

-- A text with no newline in it is one unfinished line.
abbrev pub NoNewline : Text → Type 0
NoNewline = All (λ c. c ≢ 10)

split_lines_none : (s : Text) → NoNewline s → split_lines s ≡ ([], s)
unfolding split_lines
split_lines_none [] h = refl
split_lines_none (c ∷ s) h = ground (arith, split_lines_none s h.1)

line_first :
    (w t : Text)
    → NoNewline w
    → split_lines (w ++ 10 ∷ t) ≡ ((w ∷ (split_lines t).0), (split_lines t).1)
unfolding split_lines
line_first [] t h = refl
line_first (c ∷ w) t h = ground (arith, line_first w t h.1)

byte-NoNewline : (c : ℕ) (l : Lines) → c ≢ 10 → NoNewline l.1 → NoNewline (byte_before c l).1
byte-NoNewline c ([], rest) h n = (h, n)
byte-NoNewline c (l ∷ lines, rest) h n = n

split_lines-NoNewline : (s : Text) → NoNewline (split_lines s).1
unfolding split_lines
split_lines-NoNewline [] = tt
split_lines-NoNewline (c ∷ s) = elim (Bool-cases (c == 10)) [
  | inl e ↦ rw e (split_lines-NoNewline s)
  | inr e ↦ rw e (byte-NoNewline c (split_lines s) (ground arith) (split_lines-NoNewline s))
]

-- Whatever is pushed, the buffer that is left is within the bound and holds no newline.
pub push_bounded :
    (buffer chunk : Text)
    → (length (push buffer chunk).1 ≤ max_buffered) × NoNewline (push buffer chunk).1
unfolding push
push_bounded buffer chunk = ground (arith, split_lines-NoNewline (buffer ++ chunk))

-- An event as Hyprland writes it, and the events that come back: a name with no '>', and no
-- newline or carriage return in either part.
abbrev pub print_event : HyprEvent → Text
print_event e = e.name ++ b'>' ∷ b'>' ∷ e.payload

abbrev pub print_stream : List HyprEvent → Text
print_stream [] = []
print_stream (e ∷ es) = print_event e ++ 10 ∷ print_stream es

abbrev pub IsNameByte : ℕ → Type 0
IsNameByte c = (c ≢ 10) × (c ≢ 13) × (c ≢ b'>')

abbrev pub IsPayloadByte : ℕ → Type 0
IsPayloadByte c = (c ≢ 10) × (c ≢ 13)

abbrev pub IsPlain : HyprEvent → Type 0
IsPlain e = All IsNameByte e.name × All IsPayloadByte e.payload

parse_event-print :
    (name payload : Text)
    → All IsNameByte name
    → parse_event (name ++ b'>' ∷ b'>' ∷ payload) ≡ some (record { name = name; payload = payload })
unfolding parse_event
parse_event-print [] payload h = refl
parse_event-print (c ∷ []) payload h = ground arith
parse_event-print (c ∷ d ∷ s) payload h = ground (arith, parse_event-print (d ∷ s) payload h.1)

IsPayload-print :
    (name payload : Text)
    → All IsNameByte name
    → All IsPayloadByte payload
    → All IsPayloadByte (name ++ b'>' ∷ b'>' ∷ payload)
IsPayload-print [] payload h k = ((omega arith, omega arith), ((omega arith, omega arith), k))
IsPayload-print (c ∷ s) payload h k = ((h.0.0, h.0.1), IsPayload-print s payload h.1 k)

IsPayload-NoNewline : (s : Text) → All IsPayloadByte s → NoNewline s
IsPayload-NoNewline [] h = tt
IsPayload-NoNewline (c ∷ s) h = (h.0.0, IsPayload-NoNewline s h.1)

chomp_id : (s : Text) → All IsPayloadByte s → chomp s ≡ s
unfolding chomp
chomp_id [] h = refl
chomp_id (c ∷ []) h = ground arith
chomp_id (c ∷ d ∷ s) h = ap (◌∷◌ c) (chomp_id (d ∷ s) h.1)

events-print :
    (es : List HyprEvent)
    → All IsPlain es
    → (events_of (split_lines (print_stream es)).0 ≡ es) × ((split_lines (print_stream es)).1 ≡ [])
unfolding events_of split_lines
events-print [] h = (refl, refl)
events-print (e ∷ es) h =
    let bytes = IsPayload-print e.name e.payload h.0.0 h.0.1 in
    let first = line_first (print_event e) (print_stream es) (IsPayload-NoNewline _ bytes) in
    let (ih, rest) = events-print es h.1 in
    rw first (
      rw (chomp_id (print_event e) bytes)
          (rw (parse_event-print e.name e.payload h.0.0) (ap (◌∷◌ e) ih)),
      rest,
    )

-- A stream of events as Hyprland writes them is framed and parsed back into those events, and
-- nothing stays in the buffer.
pub push-print_stream :
    (es : List HyprEvent) → All IsPlain es → push [] (print_stream es) ≡ (es, [])
unfolding push
push-print_stream es h = ground (arith, (events-print es h).0, (events-print es h).1)
