-- ===== src/Engine/Disk/Json.antt =====
-- A value that was written is read back, and a refused write leaves the file readable as before.
use muxdeck.Prelude.{
  String, ◌≡◌, ◌≢◌, none, arith, ok, is_ok, Result-cases, inl, inr, if◌then◌else◌,
}
use muxdeck.Engine.Disk.{
  FilePath, Fs, Attempt, Codec, CodecLaw, write_json, read_json_or, parse_json,
}
use muxdeck.Engine.Disk.Atomic.{write_atomic_content}

module _ {T : Type 0} (codec : Codec T) where
  -- After a `write_json` that succeeds the file is read back as the value; after one that fails it
  -- is read as before, if the codec reads what it writes and the file's extension is not tmp.
  pub read-write_json :
      CodecLaw codec
      → (attempt : Attempt) (path : FilePath) (context : String) (value default : T) (fs : Fs)
      → path.extension ≢ "tmp"
      → let (r, fs') = write_json codec attempt path value fs in
        read_json_or codec none path context default fs'
        ≡ (if is_ok r then ok value else read_json_or codec none path context default fs)
  unfolding write_json read_json_or parse_json
  read-write_json law attempt path context value default fs plain =
      elim (Result-cases (codec.to_vec_pretty value)) [
        | inl (bytes, e) ↦
            ground
              (arith, law.from-to value bytes e, write_atomic_content attempt path bytes fs plain)
        | inr (e, h) ↦ ground arith
      ]
