-- ===== src/Examples/Fixtures.antt =====
-- Concrete instances of what the engine takes from other crates, and data that the examples share.
use Prim.Native.Char.{code}
use muxdeck.Prelude.{
  ℕ, zero, suc, ◌+◌, ◌%◌, ◌≡◌, ◌≢◌, refl, ◌∙◌, ap, String, Bool, true, false, Option, none, some,
  List, [], ◌∷◌, ◌==◌, nat_eq, string_eq, eq_iff, if◌then◌else◌, ok, err, arith,
}
use muxdeck.Protocol.Session.{HostPlatform, Platform}
use muxdeck.Engine.Crypto.{Crypto, Base64Law}
use muxdeck.Engine.Identity.{Identity}
use muxdeck.Engine.Disk.{FilePath, Fs, Attempt, Codec, CodecLaw}
use muxdeck.Engine.Registry.{Registry, StoredDevice, empty_file}
use muxdeck.Engine.Session.{HandshakeContext, SocketAddr, v4}

-- A base64 that writes a byte `n` as `n` times the letter a and then b.
unfoldable pub letters : ℕ → String → String
letters zero rest = String.◌∷◌ "b" rest
letters (suc n) rest = String.◌∷◌ "a" (letters n rest)

unfoldable pub encode : List ℕ → String
unfolding letters
encode [] = ""
encode (x ∷ xs) = letters x (encode xs)

unfoldable pub prepend : ℕ → Option (List ℕ) → Option (List ℕ)
prepend n none = none
prepend n (some xs) = some (n ∷ xs)

unfoldable pub decode_from : ℕ → String → Option (List ℕ)
unfolding prepend
decode_from n String.[] = if n == 0 then some [] else none
decode_from n (String.◌∷◌ c s) =
    if code c == 97 then decode_from (suc n) s else prepend n (decode_from 0 s)

decode-letters :
    (n m : ℕ) (rest : String)
    → decode_from m (letters n rest) ≡ prepend (n + m) (decode_from 0 rest)
unfolding decode_from letters
decode-letters zero m rest = ap (λ k. prepend k (decode_from 0 rest)) (omega arith)
decode-letters (suc n) m rest =
    decode-letters n (suc m) rest ∙ ap (λ k. prepend k (decode_from 0 rest)) (omega arith)

decode-encode : (bytes : List ℕ) → decode_from 0 (encode bytes) ≡ some bytes
unfolding encode decode_from prepend
decode-encode [] = refl
decode-encode (x ∷ xs) =
    decode-letters x 0 (encode xs) ∙ rw (decode-encode xs) (ap (λ k. some (k ∷ xs)) (omega arith))

unfoldable pub sum : List ℕ → ℕ
sum [] = 0
sum (x ∷ xs) = x + sum xs

-- A signature is right when its first byte is the sum of the key's and the message's bytes.
unfoldable pub signed : List ℕ → List ℕ → List ℕ → Bool
unfolding sum
signed key message [] = false
signed key message (b ∷ rest) = b == (sum key + sum message) % 256

unfoldable pub toy : Crypto
unfolding encode decode_from signed
toy = record {
  VerifyingKey = List ℕ;
  base64_encode = encode;
  base64_decode = decode_from 0;
  key_from_bytes = λ bytes. some bytes;
  verify_strict = signed;
  sha256 = λ bytes. bytes;
}

pub toy_law : Base64Law toy
unfolding toy decode_from encode
toy_law = record { decode-encode = decode-encode }

abbrev pub zeros : ℕ → List ℕ
zeros zero = []
zeros (suc n) = 0 ∷ zeros n

-- A key of 32 bytes, and the id that it gives.
abbrev pub some_key : List ℕ
some_key = 7 ∷ zeros 31

abbrev pub some_id : String
some_id = "d_0700000000000000"

abbrev pub no_files : Fs
no_files path = none

abbrev pub granted : Attempt
granted = record { write_fault = none; rename_fault = none }

abbrev pub devices_path : FilePath
devices_path = record { parent = "/var/lib/muxdeck"; stem = "devices"; extension = "json" }

pub json_ne_tmp : devices_path.extension ≢ "tmp"
json_ne_tmp e = let same = (eq_iff "json" "tmp").1 e in cc

-- A codec that writes one value and no other.
pub record Only {T : Type 0} (value : T) : Type 0 where
  pub is_it : T → Bool
  pub is_it_lem : (v : T) → is_it v ≡ true → v ≡ value

module _ {T : Type 0} (value : T) (only : Only value) where
  unfoldable pub only_codec : Codec T
  only_codec = record {
    to_vec_pretty = λ v. if only.is_it v then ok (1 ∷ []) else err "another value";
    from_slice = λ bytes. ok value;
  }

  pub only_law : CodecLaw only_codec
  unfolding only_codec
  only_law = record { from-to = λ v bytes h. ground (arith, only.is_it_lem v) }

abbrev pub identity : Identity
identity = record {
  signing_key = zeros 32;
  host_id = "h_1";
  fingerprint = "ff";
  cert_pem = "cert";
  key_pem = "key";
  admin_token = "token";
}

abbrev pub context_of : Registry → HandshakeContext
context_of r = record {
  identity = identity;
  registry = r;
  host_name = "desk";
  engine_version = "0.1.0";
  host_platform = HostPlatform.linux;
  active_profile_id = "p_default";
  capabilities = record {
    text_unicode = true;
    media_keys = true;
    mouse = true;
    shell_actions = false;
  };
}

abbrev pub loopback : SocketAddr
loopback = record { ip = v4 127 0 0 1; port = 50000 }

abbrev pub remote : SocketAddr
remote = record { ip = v4 192 168 1 20; port = 50000 }

abbrev pub some_device : StoredDevice
some_device = record {
  device_id = some_id;
  name = "tablet";
  platform = Platform.android;
  pubkey = encode some_key;
  paired_at = 1000;
  last_seen = 1000;
}

abbrev pub empty_registry : Registry
empty_registry = record { path = devices_path; file = empty_file }

abbrev pub paired_registry : Registry
paired_registry = record {
  path = devices_path;
  file = record { devices = (some_id, some_device) ∷ [] };
}
