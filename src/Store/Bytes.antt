-- ===== src/Store/Bytes.antt =====
-- `hashEvent` of internal/store/store.go: the bytes that an event's hash covers.
use Prim.Native.Nat.{◌/◌, ◌%◌, ◌^◌}
use ai4se_coding_agent_harne.Prelude.{
  ℕ, zero, suc, ◌+◌, ◌-◌, ◌*◌, String, List, [], ◌∷◌, ◌++◌, ltb, if◌then◌else◌, length,
}
use ai4se_coding_agent_harne.Domain.{RunEvent, Time}
use ai4se_coding_agent_harne.Text.{Text, codes}

-- The UTF-8 bytes of a code point and of a text.
unfoldable pub rune_bytes : ℕ → List ℕ
rune_bytes c =
    if ltb c 0x80
    then c ∷ []
    else if ltb c 0x800
    then (0xc0 + c / 64) ∷ ((0x80 + c % 64) ∷ [])
    else if ltb c 0x10000
    then (0xe0 + c / 4096) ∷ ((0x80 + c / 64 % 64) ∷ ((0x80 + c % 64) ∷ []))
    else (0xf0 + c / 262144)
      ∷ ((0x80 + c / 4096 % 64) ∷ ((0x80 + c / 64 % 64) ∷ ((0x80 + c % 64) ∷ [])))

unfoldable pub text_bytes : Text → List ℕ
unfolding rune_bytes
text_bytes [] = []
text_bytes (c ∷ s) = rune_bytes c ++ text_bytes s

-- The `k` low bytes of a number, the highest first: `binary.BigEndian.PutUint64` for 8.
unfoldable pub big_endian : ℕ → ℕ → List ℕ
big_endian zero n = []
big_endian (suc k) n = big_endian k (n / 256) ++ (n % 256) ∷ []

unfoldable pub write_field : List ℕ → List ℕ
unfolding big_endian
write_field value = big_endian 8 (length value) ++ value

-- `uint64(at.UnixNano())`: nanoseconds since 1970, on 64 bits. Four times 2^64 exceeds the distance
-- from Go's zero time to 1970.
unfoldable pub unix_nano : Time → ℕ
unix_nano t = (t.nanos + 4 * 2 ^ 64 - 62135596800 * 1000000000) % 2 ^ 64

unfoldable pub event_bytes : RunEvent → List ℕ
unfolding write_field text_bytes unix_nano
event_bytes e =
    write_field (text_bytes (codes e.run_id))
    ++ (write_field (big_endian 8 e.sequence)
        ++ (write_field (text_bytes (codes e.type))
            ++ (write_field (big_endian 8 (unix_nano e.at))
                ++ (write_field (text_bytes (codes e.payload))
                    ++ write_field (text_bytes (codes e.previous_hash))))))

-- SHA-256 is the parameter `sha256_hex`.
unfoldable pub hash_event : (List ℕ → String) → RunEvent → String
unfolding event_bytes
hash_event sha256_hex e = sha256_hex (event_bytes e)
