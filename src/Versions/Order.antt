-- ===== src/Versions/Order.antt =====
-- rctunnel-panel/rctunnel_panel/control/server.py and agent/rctunnel_agent.py: the order of versions.
use rc_tunnel.Base.{ℤ, pos, negsuc, ◌≡◌, refl, true, false, not, ◌||◌, [], ◌∷◌, int_eq, arith}
use rc_tunnel.Versions.{Version, int_ltb, version_ltb, version_leb}

int_eq_refl : (m : ℤ) → int_eq m m ≡ true
int_eq_refl (pos a) = ground arith
int_eq_refl (negsuc a) = ground arith

int_ltb_irrefl : (m : ℤ) → int_ltb m m ≡ false
int_ltb_irrefl (pos a) = ground arith
int_ltb_irrefl (negsuc a) = ground arith

pub version_ltb_irrefl : (v : Version) → version_ltb v v ≡ false
unfolding version_ltb
version_ltb_irrefl [] = refl
version_ltb_irrefl (m ∷ v) = ground (arith, int_eq_refl m, int_ltb_irrefl m, version_ltb_irrefl v)

int_cases : (m n : ℤ) → (int_ltb n m || int_eq n m) ≡ not (int_ltb m n)
int_cases (pos a) (pos b) = ground arith
int_cases (pos a) (negsuc b) = refl
int_cases (negsuc a) (pos b) = refl
int_cases (negsuc a) (negsuc b) = ground arith

int_eq_comm : (m n : ℤ) → int_eq m n ≡ int_eq n m
int_eq_comm (pos a) (pos b) = ground arith
int_eq_comm (pos a) (negsuc b) = refl
int_eq_comm (negsuc a) (pos b) = refl
int_eq_comm (negsuc a) (negsuc b) = ground arith

int_apart : (m n : ℤ) → int_eq m n ≡ true → int_ltb m n ≡ false
int_apart (pos a) (pos b) h = ground arith
int_apart (pos a) (negsuc b) h = refl
int_apart (negsuc a) (pos b) h = cc
int_apart (negsuc a) (negsuc b) h = ground arith

-- The agent takes a version for no upgrade exactly if the panel would not offer it.
pub version_leb-version_ltb : (u v : Version) → version_leb u v ≡ not (version_ltb v u)
unfolding version_leb version_ltb
version_leb-version_ltb [] [] = refl
version_leb-version_ltb [] (n ∷ v) = refl
version_leb-version_ltb (m ∷ u) [] = refl
version_leb-version_ltb (m ∷ u) (n ∷ v) = ground (
  arith,
  version_leb-version_ltb u v,
  int_cases n m,
  int_eq_comm m n,
  int_apart m n,
  int_apart n m,
)
