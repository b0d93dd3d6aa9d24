-- ===== src/Protocols/TlsHello/Print.antt =====
-- The two hello messages of TLS as their senders write them (RFC 8446, 4.1), and the map that
-- describes them.
use open_gfw_for_frp_integra.Prelude.{
  ◌==◌, length, All, ℕ, ◌+◌, ◌*◌, ◌^◌, ◌<◌, ◌≡◌, true, false, ◌||◌, List, [], ◌∷◌, ◌++◌,
}
use open_gfw_for_frp_integra.Analyzer.{
  num, flag, text, texts, nums, Fields, field, end, insert_field,
}
use open_gfw_for_frp_integra.Utils.ByteBuffer.Words.{bytes16}
use open_gfw_for_frp_integra.Protocols.TlsHello.{
  ext_server_name, ext_alpn, ext_supported_versions, ext_encrypted_client_hello,
}

pub data Extension : Type 0 where
  server_name : List ℕ → Extension
  protocols : List (List ℕ) → Extension
  versions : List ℕ → Extension
  selected_version : ℕ → Extension
  encrypted_hello : List ℕ → Extension
  other : ℕ → List ℕ → Extension

pub record Hello : Type 0 where
  pub version : ℕ
  pub random : List ℕ
  pub session : List ℕ

pub record ClientHello : Type 0 where
  pub start : Hello
  pub ciphers : List ℕ
  pub compression : List ℕ
  pub extensions : List Extension

pub record ServerHello : Type 0 where
  pub start : Hello
  pub cipher : ℕ
  pub compression : ℕ
  pub extensions : List Extension

abbrev pub word : ℕ → List ℕ
word v = bytes16 false v

abbrev pub concat_map : {A : Type 0} → (A → List ℕ) → List A → List ℕ
concat_map f [] = []
concat_map f (x ∷ xs) = f x ++ concat_map f xs

abbrev pub print_name : List ℕ → List ℕ
print_name name = length name ∷ name

abbrev pub extension_type : Extension → ℕ
extension_type (server_name name) = ext_server_name
extension_type (protocols names) = ext_alpn
extension_type (versions vs) = ext_supported_versions
extension_type (selected_version v) = ext_supported_versions
extension_type (encrypted_hello bytes) = ext_encrypted_client_hello
extension_type (other type bytes) = type

abbrev pub extension_data : Extension → List ℕ
extension_data (server_name name) = word (length name + 3) ++ 0 ∷ (word (length name) ++ name)
extension_data (protocols names) =
    word (length (concat_map print_name names)) ++ concat_map print_name names
extension_data (versions vs) = length vs * 2 ∷ concat_map word vs
extension_data (selected_version v) = word v
extension_data (encrypted_hello bytes) = bytes
extension_data (other type bytes) = bytes

abbrev pub print_extension : Extension → List ℕ
print_extension e =
    word (extension_type e) ++ (word (length (extension_data e)) ++ extension_data e)

abbrev pub print_extensions : List Extension → List ℕ
print_extensions es = word (length (concat_map print_extension es)) ++ concat_map print_extension es

abbrev pub print_start : Hello → List ℕ → List ℕ
print_start h rest = word h.version ++ (h.random ++ (length h.session ∷ (h.session ++ rest)))

abbrev pub print_client_hello : ClientHello → List ℕ
print_client_hello c = print_start c.start (
    word (length c.ciphers * 2)
    ++ (concat_map word c.ciphers
        ++ (length c.compression ∷ (c.compression ++ print_extensions c.extensions))))

abbrev pub print_server_hello : ServerHello → List ℕ
print_server_hello c =
    print_start c.start (word c.cipher ++ (c.compression ∷ print_extensions c.extensions))

-- The field that an extension sets; a later one of the same type replaces it.
abbrev pub put_extension : Extension → Fields → Fields
put_extension (server_name name) m = insert_field "sni" (text name) m
put_extension (protocols names) m = insert_field "alpn" (texts names) m
put_extension (versions vs) m = insert_field "supported_versions" (nums vs) m
put_extension (selected_version v) m = insert_field "supported_versions" (num v) m
put_extension (encrypted_hello bytes) m = insert_field "ech" (flag true) m
put_extension (other type bytes) m = m

abbrev pub put_extensions : List Extension → Fields → Fields
put_extensions [] m = m
put_extensions (e ∷ es) m = put_extensions es (put_extension e m)

abbrev pub start_fields : Hello → Fields → Fields
start_fields h rest =
    field "version" (num h.version)
      (field "random" (nums h.random) (field "session" (nums h.session) rest))

abbrev pub client_fields : ClientHello → Fields
client_fields c = put_extensions c.extensions (
    start_fields c.start
      (field "ciphers" (nums c.ciphers) (field "compression" (nums c.compression) end)))

abbrev pub server_fields : ServerHello → Fields
server_fields c = put_extensions c.extensions (
    start_fields c.start
      (field "cipher" (num c.cipher) (field "compression" (num c.compression) end)))

abbrev pub IsWord : ℕ → Type 0
IsWord v = v < 2 ^ 16

abbrev pub IsShort : List ℕ → Type 0
IsShort bytes = length bytes < 256

-- What the fields of the wire hold, and a type that the parser passes over.
abbrev pub IsContent : Extension → Type 0
IsContent (server_name name) = Unit
IsContent (protocols names) = All IsShort names
IsContent (versions vs) = All IsWord vs
IsContent (selected_version v) = IsWord v
IsContent (encrypted_hello bytes) = Unit
IsContent (other type bytes) =
    IsWord type
    × (((type == ext_server_name)
          || (type == ext_alpn)
          || (type == ext_supported_versions)
          || (type == ext_encrypted_client_hello))
        ≡ false)

abbrev pub IsExtension : Extension → Type 0
IsExtension e = IsContent e × IsWord (length (extension_data e))

abbrev pub IsExtensions : List Extension → Type 0
IsExtensions es = All IsExtension es × IsWord (length (concat_map print_extension es))

abbrev pub IsHello : Hello → Type 0
IsHello h = IsWord h.version × (length h.random ≡ 32) × IsShort h.session

abbrev pub IsClientHello : ClientHello → Type 0
IsClientHello c =
    IsHello c.start
    × IsWord (length c.ciphers * 2)
    × All IsWord c.ciphers
    × IsShort c.compression
    × IsExtensions c.extensions

abbrev pub IsServerHello : ServerHello → Type 0
IsServerHello c =
    IsHello c.start × IsWord c.cipher × (c.compression < 256) × IsExtensions c.extensions
