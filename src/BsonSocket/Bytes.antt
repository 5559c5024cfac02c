-- ===== src/BsonSocket/Bytes.antt =====
-- The size field of src/socket/bson_socket/bson_socket.cpp.
use mros_w24_solution.Common.{ℕ, zero, suc, ◌/◌, ◌^◌, ◌<◌, ◌≡◌, refl, ap, List, ◌++◌, arith, length}
use mros_w24_solution.BsonSocket.{size_bytes, size_value}

pub length-size_bytes : (k n : ℕ) → length (size_bytes k n) ≡ k
unfolding size_bytes
length-size_bytes zero n = refl
length-size_bytes (suc k) n = ap suc (length-size_bytes k (n / 256))

-- A number that fits the field is read back.
pub size_value-size_bytes : (k n : ℕ) → n < 256 ^ k → size_value (size_bytes k n) ≡ n
unfolding size_bytes size_value
size_value-size_bytes zero n h = omega arith
size_value-size_bytes (suc k) n h = omega (arith, size_value-size_bytes k (n / 256) (omega arith))

-- What goes out for a message, whole.
unfoldable pub frame : List ℕ → List ℕ
frame bson = size_bytes 8 (length bson) ++ bson
