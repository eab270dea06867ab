-- ===== src/State/File.antt =====
-- state/state.go's writeJSON: the system calls that replace a file, one after the other.
pub mod Atomic
use uni_chat_sdk.Prelude.{
  ℕ, Bytes, text, ◌==◌, Bool, true, false, Option, none, some, List, [], ◌∷◌, ◌++◌, if◌then◌else◌,
  take,
}

abbrev pub Error : Type 0
Error = Option Bytes

pub record File : Type 0 where
  pub mode : ℕ
  pub content : Bytes

-- The directory of the written path: its mode, or `none` if it does not exist, and its files by their
-- paths.
pub record Disk : Type 0 where
  pub dir_mode : Option ℕ
  pub files : Bytes → Option File

-- 0o600 and 0o700
abbrev pub private_file : ℕ
private_file = 384

abbrev pub private_dir : ℕ
private_dir = 448

-- What the calls come to. `marshal` is the result of json.MarshalIndent on the value; `tmp` and
-- `tmp_mode` are the path and mode that os.CreateTemp gives the file; `written` is how many bytes a
-- failing Write has written.
pub record Calls : Type 0 where
  pub mkdir : Error
  pub chmod_dir : Error
  pub marshal : Bytes × Error
  pub create : Error
  pub tmp : Bytes
  pub tmp_mode : ℕ
  pub chmod_tmp : Error
  pub write : Error
  pub written : ℕ
  pub close : Error
  pub rename : Error
  pub remove : Error

unfoldable pub set_file : Disk → Bytes → Option File → Disk
set_file d path f = record d { files = λ p. if path == p then f else d.files p }

unfoldable pub make_dir : Disk → Disk
make_dir d = elim d.dir_mode [ none ↦ record d { dir_mode = some private_dir } | some m ↦ d ]

-- The deferred removal of the temporary file; its error is ignored.
unfoldable pub remove_tmp : Calls → Disk → Disk
remove_tmp c d = elim c.remove [ some e ↦ d | none ↦ set_file d c.tmp none ]

-- The disks behind the calls, the last one first, and the error. `past` are those so far.
unfoldable pub rename_file : Calls → Bytes → Bytes → List Disk → Disk → List Disk × Error
rename_file c path b past d = elim c.rename [
  | some e ↦ (remove_tmp c d ∷ d ∷ past, some e)
  | none ↦ (
    set_file (set_file d path (some (record { mode = private_file; content = b }))) c.tmp none
        ∷ d
        ∷ past,
    none,
  )
]

unfoldable pub fill_tmp : Calls → Bytes → Bytes → List Disk → Disk → List Disk × Error
fill_tmp c path b past d = elim c.write [
  | some e ↦
      let part =
        set_file d c.tmp (some (record { mode = private_file; content = take c.written b })) in
      (remove_tmp c part ∷ part ∷ d ∷ past, some e)
  | none ↦
      let whole = set_file d c.tmp (some (record { mode = private_file; content = b })) in
      elim c.close [
        | some e ↦ (remove_tmp c whole ∷ whole ∷ d ∷ past, some e)
        | none ↦ rename_file c path b (d ∷ past) whole
      ]
]

unfoldable pub narrow_tmp : Calls → Bytes → Bytes → List Disk → Disk → List Disk × Error
narrow_tmp c path b past d = elim c.chmod_tmp [
  | some e ↦ (remove_tmp c d ∷ d ∷ past, some e)
  | none ↦
      fill_tmp c path b (d ∷ past)
        (set_file d c.tmp (some (record { mode = private_file; content = [] })))
]

unfoldable pub write_tmp : Calls → Bytes → List Disk → Disk → List Disk × Error
write_tmp c path past d = elim c.marshal.1 [
  | some e ↦ (d ∷ past, some e)
  | none ↦ elim c.create [
    | some e ↦ (d ∷ past, some e)
    | none ↦
        narrow_tmp c path c.marshal.0 (d ∷ past)
          (set_file d c.tmp (some (record { mode = c.tmp_mode; content = [] })))
  ]
]

unfoldable pub write_json : Calls → Bytes → Disk → List Disk × Error
write_json c path d = elim c.mkdir [
  | some e ↦ (d ∷ [], some e)
  | none ↦ elim c.chmod_dir [
    | some e ↦ (make_dir d ∷ d ∷ [], some e)
    | none ↦
        write_tmp c path (make_dir d ∷ d ∷ []) (record (make_dir d) { dir_mode = some private_dir })
  ]
]
