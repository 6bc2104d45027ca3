-- ===== src/Client/Verified.antt =====
-- client_ref/fl_client.py: which models the client accepts.
use threat_hunting_platform.Prelude.{
  String, Bytes, ◌≡◌, refl, true, Option, none, some, eq_iff, string_Eq, Bool-cases, inl, inr,
  arith,
}
use threat_hunting_platform.Attestation.{
  Value, text, int, number, texts, boolean, null, items, fields, Dict, get, Loaded, invalid, other,
  object, Wire,
}
use threat_hunting_platform.Client.{
  ok, is_text, check_hash, check_signature, check_key, verify_global_model,
}

pub is_text-true : (t : String) (v : Option Value) → is_text t v ≡ true → v ≡ some (text t)
is_text-true t none e = absurd (ground arith)
is_text-true t (some (text u)) e = rw ((eq_iff u t).0 e)
is_text-true t (some (int u)) e = absurd (ground arith)
is_text-true t (some (number u)) e = absurd (ground arith)
is_text-true t (some (texts u)) e = absurd (ground arith)
is_text-true t (some (boolean u)) e = absurd (ground arith)
is_text-true t (some null) e = absurd (ground arith)
is_text-true t (some (items u)) e = absurd (ground arith)
is_text-true t (some (fields u)) e = absurd (ground arith)

-- The hash check passes an object that names the hash of the bytes.
check_hash-ok :
    (w : Wire) (m : Bytes) (l : Loaded)
    → check_hash w m l ≡ ok
    → (d : Dict) × (l ≡ object d) × (get "model_sha256" d ≡ some (text (w.sha256 m)))
unfolding check_hash
check_hash-ok w m invalid e = absurd (ground arith)
check_hash-ok w m other e = absurd (ground arith)
check_hash-ok w m (object d) e = elim (Bool-cases (is_text (w.sha256 m) (get "model_sha256" d))) [
  | inl y ↦ (d, refl, is_text-true (w.sha256 m) (get "model_sha256" d) y)
  | inr n ↦ absurd (ground arith)
]

check_signature-ok :
    (w : Wire) (key : String) (m att : Bytes) (sig : Option Bytes)
    → check_signature w key m att sig ≡ ok
    → (g : Bytes) × (sig ≡ some g)
      × (w.verify key att g ≡ true)
      × (check_hash w m (w.loads att) ≡ ok)
unfolding check_signature
check_signature-ok w key m att none e = absurd (ground arith)
check_signature-ok w key m att (some g) e = elim (Bool-cases (w.verify key att g)) [
  | inl y ↦ (g, refl, y, ground (arith, y))
  | inr n ↦ absurd (ground (arith, n))
]

check_key-ok :
    (w : Wire) (k : Option String) (download att : Bytes) (sig_hex : String)
    → check_key w k download att sig_hex ≡ ok
    → (key : String) × (sig : Bytes) × (d : Dict) × (k ≡ some key)
      × (w.unhex sig_hex ≡ some sig)
      × (w.verify key att sig ≡ true)
      × (w.loads att ≡ object d)
      × (get "model_sha256" d ≡ some (text (w.sha256 download)))
unfolding check_key
check_key-ok w none download att sig_hex e = absurd (ground arith)
check_key-ok w (some key) download att sig_hex e =
    let (sig, s, v, h) = check_signature-ok w key download att (w.unhex sig_hex) e in
    let (d, l, g) = check_hash-ok w download (w.loads att) h in (key, sig, d, refl, s, v, l, g)

-- What a client accepts is signed by the coordinator's key, and the signed message is an object
-- that names the hash of the very bytes that were downloaded.
pub verify_global_model_sound :
    (w : Wire) (pem : String) (download att : Bytes) (sig_hex : String)
    → verify_global_model w pem download att sig_hex ≡ ok
    → (key : String) × (sig : Bytes) × (d : Dict) × (w.public_key_from_pem pem ≡ some key)
      × (w.unhex sig_hex ≡ some sig)
      × (w.verify key att sig ≡ true)
      × (w.loads att ≡ object d)
      × (get "model_sha256" d ≡ some (text (w.sha256 download)))
unfolding verify_global_model
verify_global_model_sound w pem download att sig_hex =
    check_key-ok w (w.public_key_from_pem pem) download att sig_hex
