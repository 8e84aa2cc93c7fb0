-- ===== src/Quirks.antt =====
-- quirks.h: the frequency governor of every processor is set to "performance". A C string is the
-- list of the bytes of its array.
pub mod Text
pub mod Settled
pub mod Turns
pub mod Governors
pub mod Again
pub mod Tests
use psplay.Base.{
  ℕ, zero, suc, ◌+◌, ◌-◌, Bool, true, false, ltb, ◌==◌, if◌then◌else◌, Option, none, some, ◌>>=◌,
  List, [], ◌∷◌, ◌++◌, store,
}
use psplay.Base.Int.{ℤ, pos, negsuc, ltb_ℤ}

-- The two files of a processor below /sys/devices/system/cpu.
pub data CpuFile : Type 0 where
  scaling_driver scaling_governor : ℕ → CpuFile

-- Files of the operating system: what there is to read in a file, `none` where it does not open;
-- what opening it for writing does, if it opens; and an `fprintf` into the open file, with what the
-- call returns.
pub record FileSystem : Type 1 where
  pub Files : Type 0
  pub content : Files → CpuFile → Option (List ℕ)
  pub open_write : Files → CpuFile → Option Files
  pub print : Files → CpuFile → List ℕ → Files × ℤ

abbrev pub newline : ℕ
newline = 10

-- "performance"
abbrev pub governor_target : List ℕ
governor_target = 112 ∷ 101 ∷ 114 ∷ 102 ∷ 111 ∷ 114 ∷ 109 ∷ 97 ∷ 110 ∷ 99 ∷ 101 ∷ []

-- "intel_pstate"
abbrev pub supported_driver : List ℕ
supported_driver = 105 ∷ 110 ∷ 116 ∷ 101 ∷ 108 ∷ 95 ∷ 112 ∷ 115 ∷ 116 ∷ 97 ∷ 116 ∷ 101 ∷ []

-- The bytes that `fgets` takes of a file, `n` at most: up to a newline.
pub first_line : ℕ → List ℕ → List ℕ
first_line zero bytes = []
first_line (suc n) [] = []
first_line (suc n) (c ∷ bytes) =
    let rest = first_line n bytes in if c == newline then c ∷ [] else c ∷ rest

-- The bytes into the front of an array.
pub fill : List ℕ → List ℕ → Option (List ℕ)
fill [] buf = some buf
fill (c ∷ bytes) [] = none
fill (c ∷ bytes) (b ∷ buf) = fill bytes buf >>= λ rest. some (c ∷ rest)

-- strcspn(buf, "\n")
pub strcspn_newline : List ℕ → Option ℕ
strcspn_newline [] = none
strcspn_newline (b ∷ buf) =
    let rest = strcspn_newline buf in
    if b == 0 then some 0 else if b == newline then some 0 else (rest >>= λ k. some (suc k))

-- strncmp(a, b, n) != 0
pub strncmp_differs : ℕ → List ℕ → List ℕ → Option Bool
strncmp_differs zero a b = some false
strncmp_differs (suc n) (x ∷ a) (y ∷ b) =
    let rest = strncmp_differs n a b in
    if x == y then (if x == 0 then some false else rest) else some true
strncmp_differs (suc n) [] b = none
strncmp_differs (suc n) (x ∷ a) [] = none

-- The string in an array, as `%s` prints it.
pub text : List ℕ → Option (List ℕ)
text [] = none
text (b ∷ buf) = let rest = text buf in if b == 0 then some [] else (rest >>= λ t. some (b ∷ t))

-- What `fgets` leaves in the buffer, cut at the newline; it returns NULL where there is no byte.
pub keep_line : List ℕ → List ℕ → Option (List ℕ)
keep_line [] buf = some buf
keep_line (c ∷ line) buf = do
  filled ← fill ((c ∷ line) ++ 0 ∷ []) buf
  end ← strcspn_newline filled
  store filled end 0

pub read_opened : Option (List ℕ) → List ℕ → ℕ → Option (ℤ × List ℕ)
read_opened none buf maxlen = some (negsuc 0, buf)
read_opened (some bytes) buf maxlen = do
  buf' ← keep_line (first_line (maxlen - 1) bytes) buf
  some (pos 1, buf')

module _ (S : FileSystem) where
  pub file_read : S.Files → CpuFile → List ℕ → ℕ → Option (ℤ × List ℕ)
  file_read s filename buf maxlen = read_opened (S.content s filename) buf maxlen

  abbrev pub print_opened : S.Files → CpuFile → List ℕ → Option S.Files → S.Files × ℤ
  print_opened s filename bytes none = (s, negsuc 0)
  print_opened s filename bytes (some opened) = S.print opened filename bytes

  pub file_write : S.Files → CpuFile → List ℕ → S.Files × ℤ
  file_write s filename buf =
      print_opened s filename (buf ++ newline ∷ []) (S.open_write s filename)

-- What goes to standard error.
pub data Message : Type 0 where
  no_driver : Message
  unsupported : List ℕ → Message
  no_governor : Message
  setting : List ℕ → Message
  not_set : Message

module _ (S : FileSystem) where
  -- The files and the variables of the loop; in `log`, each message with the processor of its turn.
  pub record Run : Type 0 where
    pub files : S.Files
    pub scaling_driver_buf : List ℕ
    pub governor_current : List ℕ
    pub log : List (ℕ × Message)

module _ {S : FileSystem} where
  abbrev pub say : ℕ → Message → Run S → Run S
  say i m r = record r { log = r.log ++ (i, m) ∷ [] }

  abbrev pub report_write : ℕ → ℤ → Run S → Run S
  report_write i ret r = if ltb_ℤ (pos 0) ret then r else say i not_set r

  -- The governor is another one.
  pub set_governor : ℕ → Run S → Option (Run S)
  set_governor i r = do
    current ← text r.governor_current
    let (files, ret) = file_write S r.files (scaling_governor i) governor_target
    some (report_write i ret (say i (setting current) (record r { files = files })))

  -- The governor could be read.
  pub compare_governor : ℕ → Run S → Option (Run S)
  compare_governor i r = do
    differs ← strncmp_differs 256 r.governor_current (governor_target ++ 0 ∷ [])
    if differs then set_governor i r else some r

  -- The driver is the supported one.
  pub check_governor : ℕ → Run S → Option (Run S)
  check_governor i r = do
    (ret, buf) ← file_read S r.files (scaling_governor i) r.governor_current 256
    let r' : Run S = record r { governor_current = buf }
    if ltb_ℤ (pos 0) ret then compare_governor i r' else some (say i no_governor r')

  abbrev pub refuse_driver : ℕ → Run S → Option (Run S)
  refuse_driver i r = do driver ← text r.scaling_driver_buf; some (say i (unsupported driver) r)

  -- The driver could be read.
  pub compare_driver : ℕ → Run S → Option (Run S)
  compare_driver i r = do
    differs ← strncmp_differs 256 r.scaling_driver_buf (supported_driver ++ 0 ∷ [])
    if differs then refuse_driver i r else check_governor i r

  -- The body of the loop, for processor `i`.
  pub turn : ℕ → Run S → Option (Run S)
  turn i r = do
    (ret, buf) ← file_read S r.files (scaling_driver i) r.scaling_driver_buf 256
    let r' : Run S = record r { scaling_driver_buf = buf }
    if ltb_ℤ (pos 0) ret then compare_driver i r' else some (say i no_driver r')

  -- The loop, with `left` processors to go from `i` on.
  pub set_governors : ℕ → ℕ → Run S → Option (Run S)
  set_governors zero i r = some r
  set_governors (suc left) i r = turn i r >>= λ r'. set_governors left (i + 1) r'
