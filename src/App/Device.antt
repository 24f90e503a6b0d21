-- ===== src/App/Device.antt =====
-- What the app takes from its platform: fyne.io/fyne/v2/storage for one file, encoding/json, and
-- `sort.Slice`.
use open_chat.Prelude.{◌≡◌, Bool, true, false, Option, none, some, Result, ok, err}
use open_chat.Go.Bytes.{Bytes}

pub data DiskError : Type 0 where
  no_location unreadable unwritable undeletable not_json : DiskError

-- One file of the app's private storage. Storage.Child may fail in each.
pub record File : Type 1 where
  pub Disk : Type 0
  pub exists : Disk → Result DiskError Bool
  pub read : Disk → Result DiskError Bytes
  -- a failed write may leave anything behind
  pub write : Disk → Bytes → Result DiskError (Unit {0}) × Disk
  pub delete : Disk → Result DiskError (Unit {0}) × Disk
  pub read-write :
      (d d' : Disk) (raw : Bytes)
      → write d raw ≡ (ok tt, d')
      → (exists d' ≡ ok true) × (read d' ≡ ok raw)
  pub exists-delete : (d d' : Disk) → delete d ≡ (ok tt, d') → exists d' ≡ ok false

-- json.Marshal and json.Unmarshal at a type.
pub record Json (A : Type 0) : Type 0 where
  pub marshal : A → Option Bytes
  pub unmarshal : Bytes → Option A

abbrev pub or_not_json : {A : Type 0} → Option A → Result DiskError A
or_not_json none = err not_json
or_not_json (some a) = ok a
