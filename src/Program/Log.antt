-- ===== src/Program/Log.antt =====
-- log.cpp and log.h: `write_message` and the buffer `msg` that it works on. What `vsnprintf` makes of
-- a format and its arguments is an argument, the text `formatted`.
use Prim.Native.Nat.{bit_and}
use satip_client.Base.{
  ℕ, ◌-◌, ◌≤◌, ◌≡◌, refl, Bool, false, ltb, leb, ◌==◌, if◌then◌else◌, if-both, Bool-cases, inl, inr,
  Option, none, some, List, [], ◌∷◌, ◌++◌, All, length, take, length-take, take_all, lt→ltb,
  All-append, ◌>>=◌, arith,
}
use satip_client.Base.Int.{ℤ, pos, negsuc}
use satip_client.Base.Text.{Text}
use satip_client.Base.Search.{c_string}

-- `MAX_MSGSIZE`
abbrev pub max_msgsize : ℕ
max_msgsize = 1024

-- `dbg_mask`, `dbg_level`, `use_syslog`, whether there is a `log_file`, and what stands in `msg` before
-- its NUL.
pub record Log : Type 0 where
  pub dbg_mask : ℕ
  pub dbg_level : ℤ
  pub use_syslog : Bool
  pub has_file : Bool
  pub msg : Text

-- A call: the kind of the message, its level, and the text of its format and arguments.
pub record LogMessage : Type 0 where
  pub mtype : ℕ
  pub level : ℕ
  pub formatted : Text

pub data Priority : Type 0 where
  log_err log_warning log_info log_debug : Priority

-- Where a message goes; the stamp before the message in a file and on `stderr` is left out.
pub data Output : Type 0 where
  to_file to_stderr : Text → Output
  to_syslog : Priority → Text → Output

abbrev pub priority_of : ℕ → Priority
priority_of level =
    if level == 1
    then log_err
    else if level == 2
    then log_warning
    else if level == 3
    then log_info
    else log_debug

-- `level <= dbg_level`
abbrev pub is_within : ℕ → ℤ → Bool
is_within level (pos n) = leb level n
is_within level (negsuc n) = false

-- `strncat(msg, tn, sizeof(msg)-1)`; none where the text does not fit into the buffer with its NUL.
unfoldable pub strncat : Text → Text → Option Text
unfolding c_string
strncat msg tn =
    let joined = msg ++ take (max_msgsize - 1) (c_string tn) in
    if ltb (length joined) max_msgsize then some joined else none

unfoldable pub output : Log → ℕ → Text → Output
output log level text =
    if log.has_file
    then to_file text
    else if log.use_syslog
    then to_syslog (priority_of level) text
    else to_stderr text

-- `mtype & dbg_mask`
abbrev pub is_masked : ℕ → ℕ → Bool
is_masked mtype mask = bit_and mtype mask == 0

-- `write_message`: what it writes, and the buffer that it leaves. It is none where `strncat` writes
-- behind the buffer.
unfoldable pub write_message : LogMessage → Log → Option (Log × List Output)
unfolding strncat output
write_message m log =
    if is_masked m.mtype log.dbg_mask
    then some (log, [])
    else if is_within m.level log.dbg_level
    then elim (strncat log.msg (take (max_msgsize - 2) m.formatted)) [
      | none ↦ none
      | some text ↦ some (record log { msg = [] }, output log m.level text ∷ [])
    ]
    else some (record log { msg = [] }, [])

-- The messages of one thread, in their order.
unfoldable pub write_messages : List LogMessage → Log → Option (Log × List Output)
unfolding write_message
write_messages [] log = some (log, [])
write_messages (m ∷ ms) log = do
  (log', out) ← write_message m log
  (log'', outs) ← write_messages ms log'
  some (log'', out ++ outs)

-- What a message says: the first 1022 bytes of its text, up to a NUL, if it is neither masked nor of a
-- level above the set one.
unfoldable pub spoken : Log → LogMessage → List Output
unfolding output c_string
spoken log m =
    if is_masked m.mtype log.dbg_mask
    then []
    else if is_within m.level log.dbg_level
    then output log m.level (c_string (take (max_msgsize - 2) m.formatted)) ∷ []
    else []

unfoldable pub all_spoken : Log → List LogMessage → List Output
unfolding spoken
all_spoken log [] = []
all_spoken log (m ∷ ms) = spoken log m ++ all_spoken log ms

abbrev pub said : Output → Text
said (to_file text) = text
said (to_stderr text) = text
said (to_syslog priority text) = text

length-c_string : (t : Text) → length (c_string t) ≤ length t
unfolding c_string
length-c_string [] = omega arith
length-c_string (b ∷ t) = ground (arith, length-c_string t)

fits : (t : Text) → length (c_string (take 1022 t)) ≤ 1022
fits t = omega (arith, length-c_string (take 1022 t), length-take 1022 t)

strncat-fits : (t : Text) → strncat [] (take 1022 t) ≡ some (c_string (take 1022 t))
unfolding strncat
strncat-fits t =
    rw
      (
        take_all 1023 (c_string (take 1022 t)) (omega (arith, fits t)),
        lt→ltb (length (c_string (take 1022 t))) 1024 (omega (arith, fits t)),
      )
      refl

-- The buffer holds nothing.
abbrev pub emptied : Log → Log
emptied log = record log { msg = [] }

write_message-spoken :
    (m : LogMessage) (log : Log) → write_message m (emptied log) ≡ some (emptied log, spoken log m)
unfolding write_message spoken output
write_message-spoken m log = elim (Bool-cases (is_masked m.mtype log.dbg_mask)) [
  | inl e ↦ rw e refl
  | inr e ↦ elim (Bool-cases (is_within m.level log.dbg_level)) [
    | inl w ↦ rw (e, w, strncat-fits m.formatted) refl
    | inr w ↦ rw (e, w) refl
  ]
]

abbrev IsShort : Output → Type 0
IsShort out = length (said out) ≤ 1022

output-IsShort : (log : Log) (level : ℕ) (t : Text) → length t ≤ 1022 → IsShort (output log level t)
unfolding output
output-IsShort log level t h =
    if-both IsShort log.has_file _ _ h (if-both IsShort log.use_syslog _ _ h h)

spoken-IsShort : (log : Log) (m : LogMessage) → All IsShort (spoken log m)
unfolding spoken
spoken-IsShort log m = if-both (All IsShort) (is_masked m.mtype log.dbg_mask) _ _ tt (
    if-both (All IsShort) (is_within m.level log.dbg_level) _ _
      (output-IsShort log m.level _ (fits m.formatted), tt) tt)

-- From an empty buffer no message overflows it: each call of a thread writes exactly what its message
-- says, at most 1022 bytes, and leaves the buffer empty for the next one.
pub write_messages-spoken :
    (ms : List LogMessage) (log : Log)
    → (write_messages ms (emptied log) ≡ some (emptied log, all_spoken log ms))
      × All (λ out. length (said out) ≤ 1022) (all_spoken log ms)
unfolding write_messages all_spoken
write_messages-spoken [] log = (refl, tt)
write_messages-spoken (m ∷ ms) log =
    let (same, short) = write_messages-spoken ms log in
    (
      rw (write_message-spoken m log, same) refl,
      All-append IsShort (spoken log m) (all_spoken log ms) (spoken-IsShort log m) short,
    )
