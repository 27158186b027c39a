-- ===== src/StateFile.antt =====
-- internal/sshwatch/statefile.go: `WriteStateFile`, on the files of a world of any type. Each call of package
-- os may fail, and may change the world whether it fails or not.
pub mod Replaced
use statixagent.Prelude.{
  Bool, true, false, not, ◌&&◌, Option, none, some, List, [], ◌∷◌, ◌++◌, if◌then◌else◌,
}
use statixagent.Prelude.Text.{Str, codes}

-- `os.ReadFile`
pub data FileRead : Type 0 where
  no_such unreadable_file : FileRead
  contents : Str → FileRead

-- What is done with a temporary file: its methods, and `os.Remove`.
pub data TempOp : Type 0 where
  op_chmod op_sync op_close op_remove : TempOp
  op_write : Str → TempOp

-- Packages os and path/filepath: `CreateTemp` of a directory and a pattern, `Rename`, and the sync of
-- a directory, whose errors are ignored.
pub record Files (W : Type 0) : Type 0 where
  pub read_at : Str → W → FileRead
  pub dir_of : Str → Str
  pub base_of : Str → Str
  pub create_temp : Str → Str → W → W × Option Str
  pub on_temp : TempOp → Str → W → W × Bool
  pub rename : Str → Str → W → W × Bool
  pub sync_dir : Str → W → W

module _ {W : Type 0} (fs : Files W) where
  abbrev pub temp_pattern : Str → Str
  temp_pattern path = codes "." ++ fs.base_of path ++ codes "-*"

  -- To the first that fails.
  unfoldable pub fill : List TempOp → Str → W → W × Bool
  fill [] tmp w = (w, true)
  fill (op ∷ ops) tmp w =
      let (w', ok) = fs.on_temp op tmp w in
      let rest = fill ops tmp w' in if ok then rest else (w', false)

  abbrev pub fill_ops : Str → List TempOp
  fill_ops data_ = op_chmod ∷ op_write data_ ∷ op_sync ∷ []

  -- The file is closed whether it could be filled or not.
  unfoldable pub put_in_place : Str → Str → Str → W → W × Bool
  unfolding fill
  put_in_place path data_ tmp w =
      let (w1, filled) = fill (fill_ops data_) tmp w in
      let (w2, closed) = fs.on_temp op_close tmp w1 in
      let (w3, renamed) = fs.rename tmp path w2 in
      if not (filled && closed)
      then (w2, false)
      else if not renamed
      then (w3, false)
      else (fs.sync_dir (fs.dir_of path) w3, true)

  -- `WriteStateFile`
  unfoldable pub write_state_file : Str → Str → W → W × Bool
  unfolding put_in_place
  write_state_file path data_ w =
      let (w1, made) = fs.create_temp (fs.dir_of path) (temp_pattern path) w in
      elim made [
        | none ↦ (w1, false)
        | some tmp ↦
            let (w2, ok) = put_in_place path data_ tmp w1 in ((fs.on_temp op_remove tmp w2).0, ok)
      ]
