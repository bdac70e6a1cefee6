-- ===== src/Host.antt =====
-- What the program uses of its surroundings: hashes, the JSON encoder and decoder, the owner and
-- the mode of a file. The functions of the standard library that compute on bytes are parameters.
use dispatcher_for_codex_age.Prelude.{
  ℕ, String, Bool, true, not, ◌||◌, Option, none, some, List, [], ◌∷◌, length, ltb, contains, ◌==◌,
  nat_eq, string_eq, list_eq, if◌then◌else◌,
}
use dispatcher_for_codex_age.Prelude.Result.{Result, ok, err, ◌>>◌, refuse}
use dispatcher_for_codex_age.Prelude.Text.{is_absolute, path_parts}
use dispatcher_for_codex_age.Json.{Json}

abbrev pub Bytes : Type 0
Bytes = List ℕ

pub record Host : Type 0 where
  pub uid : ℕ  -- os.getuid()
  pub digest : Bytes → String  -- hashlib.sha256(content).hexdigest()
  pub hmac_sha256 : Bytes → Bytes → String  -- of a key and a message, in hexadecimal
  pub canonical : Json → Bytes  -- json.dumps(value, sort_keys=True) and a line end
  pub dumps : Json → Bytes  -- json.dumps(value).encode()
  pub loads : Bytes → Option Json  -- json.loads; `none` where it raises
  pub resolves : String → Bool  -- whether a path has no symbolic link on its way

pub record File : Type 0 where
  pub content : Bytes
  pub owner : ℕ
  pub mode : ℕ
  pub regular : Bool

abbrev pub Directory : Type 0
Directory = List (String × File)

-- `path.exists()`, for a name in the directory.
abbrev pub find_file : String → Directory → Option File
find_file name [] = none
find_file name ((n, file) ∷ files) = if name == n then some file else find_file name files

abbrev pub file_names : Directory → List String
file_names [] = []
file_names ((n, file) ∷ files) = n ∷ file_names files

-- notifications/core.py, `private_read`
unfoldable pub private_read : Host → File → Result Bytes
private_read h file = do
  refuse (not (file.owner == h.uid) || not (file.mode == 0o600) || not file.regular)
      "CONFIG_OWNER_OR_MODE_INVALID"
  refuse (ltb 65536 (length file.content)) "CONFIG_TOO_LARGE"
  ok file.content

abbrev pub read_private : Host → String → Directory → Result Bytes
read_private h name files = elim (find_file name files) [
  | none ↦ err "FileNotFoundError"
  | some file ↦ private_read h file
]

-- main_agent_bridge/store.py, `exclusive`: the new file is the caller's, with mode 0600.
unfoldable pub exclusive : Host → String → Bytes → Directory → Result Directory
exclusive h name content files = elim (find_file name files) [
  | none ↦
      ok ((name, record { content = content; owner = h.uid; mode = 0o600; regular = true }) ∷ files)
  | some file ↦ err "FileExistsError"
]

-- main_agent_bridge/store.py, `safe_path`: a name that stays below its root.
unfoldable pub safe_path : Host → String → Result String
safe_path h relative =
    let parts = path_parts relative in
    if is_absolute relative
      || contains (b'.' ∷ b'.' ∷ []) parts
      || not (h.resolves relative)
      || parts == []
    then err "PATH_ALLOWLIST_VIOLATION"
    else ok relative
