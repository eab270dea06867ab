-- ===== src/State/Config.antt =====
-- LoadConfig and SaveConfig of state/state.go, for a configuration of any type.
use uni_chat_sdk.Prelude.{Bytes, text, ◌++◌, ◌==◌, ◌≡◌, ap, ◌∙◌, false, none, some, List, arith}
use uni_chat_sdk.State.File.{Error, Disk, Calls, private_file, write_json}
use uni_chat_sdk.State.File.Atomic.{write_json-IsAtomic}
use uni_chat_sdk.State.Load.{FileRead, missing, failed, contents}
use uni_chat_sdk.State.Store.{read_file}
use uni_chat_sdk.State.Store.Reload.{newest, newest-files}

-- `path` is that of `config.json` in the directory, and `zero` the zero value of the type.
module _ {A : Type 0} (path : Bytes) (zero : A) (decode : Bytes → A → A × Error) where
  -- A file that does not exist is an error too.
  unfoldable pub load_config : FileRead → A × Error
  load_config missing = (zero, some (text "open " ++ path ++ text ": no such file or directory"))
  load_config (failed error) = (zero, some error)
  load_config (contents b) = decode b zero

  unfoldable pub save_config : (A → Bytes × Error) → Calls → A → Disk → List Disk × Error
  save_config encode c config d = write_json (record c { marshal = encode config }) path d

  load_config-file :
      (d e : Disk)
      → e.files path ≡ d.files path
      → load_config (read_file path e) ≡ load_config (read_file path d)
  unfolding read_file
  load_config-file d e h =
      let q : read_file path e ≡ read_file path d = ground (arith, h) in ap load_config q

  load_config-new :
      (d : Disk) (b : Bytes)
      → d.files path ≡ some (record { mode = private_file; content = b })
      → load_config (read_file path d) ≡ decode b zero
  unfolding read_file load_config
  load_config-new d b h = ground (arith, h)

  -- A configuration whose text is decoded as itself and that is saved without an error is what the next
  -- load gives; a save that reports an error leaves a load what it was before. The temporary file has a
  -- path of its own.
  pub save_config-load_config :
      (encode : A → Bytes × Error) (c : Calls) (config : A) (d : Disk)
      → (c.tmp == path) ≡ false
      → decode (encode config).0 zero ≡ (config, none)
      → let r = save_config encode c config d in
        (r.1 ≡ none → load_config (read_file path (newest d r.0)) ≡ (config, none))
        × ((e : Bytes)
            → r.1 ≡ some e
            → load_config (read_file path (newest d r.0)) ≡ load_config (read_file path d))
  unfolding save_config
  save_config-load_config encode c config d own h =
      let call = record c { marshal = encode config } in
      let r = write_json call path d in
      let (good, bad) =
        newest-files path (d.files path) _ d r.0 r.1 (write_json-IsAtomic call path d own) in
      (
        (λ e. load_config-new (newest d r.0) (encode config).0 (good e) ∙ h),
        (λ x e. load_config-file d (newest d r.0) (bad x e)),
      )
