-- ===== src/Tokio/Map.antt =====
-- `dashmap::DashMap` and `oneshot::Sender` as interfaces, and what the proxy relies on of the map.
use trixter.Prelude.{◌≡◌, ◌≢◌, Bool, List, Memᴰ, ◌⊎◌, Option, none, some, map}
use trixter.Tokio.Task.{Payload}

-- `update` writes through the reference that `get_mut` gives.
pub record DashMap (K V M : Type 0) : Type 0 where
  pub get : M → K → Option V
  pub update : M → K → V → M
  pub insert : M → K → V → M
  pub remove : M → K → Option V × M
  pub entries : M → List (K × V)

pub record DashMapLaws {K V M : Type 0} (d : DashMap K V M) : Type 0 where
  pub get-insert : (m : M) (k : K) (v : V) → d.get (d.insert m k v) k ≡ some v
  pub get-insert_other :
      (m : M) (k other : K) (v : V) → other ≢ k → d.get (d.insert m k v) other ≡ d.get m other
  pub get-update : (m : M) (k : K) (v : V) → d.get (d.update m k v) k ≡ some v
  pub get-update_other :
      (m : M) (k other : K) (v : V) → other ≢ k → d.get (d.update m k v) other ≡ d.get m other
  pub remove_gets : (m : M) (k : K) → (d.remove m k).0 ≡ d.get m k
  pub get-remove : (m : M) (k : K) → d.get (d.remove m k).1 k ≡ none
  pub get-remove_none :
      (m : M) (k other : K) → d.get m other ≡ none → d.get (d.remove m k).1 other ≡ none
  pub get-remove_other :
      (m : M) (k other : K) → (other ≡ k) ⊎ (d.get (d.remove m k).1 other ≡ d.get m other)
  pub entries_all :
      (m : M) (k : K) → Memᴰ k (map (λ (e : K × V). e.0) (d.entries m)) ⊎ (d.get m k ≡ none)

pub record Sender (Cx Tx : Type 0) : Type 0 where
  pub send : Tx → Payload → Cx → Bool × Cx
