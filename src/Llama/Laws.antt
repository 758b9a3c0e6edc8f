-- ===== src/Llama/Laws.antt =====
-- What the accepted inputs of a llama.cpp session satisfy.
use sql_server_lab.Prelude.{
  ℕ, String, true, false, not, some, ◌≡◌, refl, sym, subst, ◌≤◌, ◌<◌, ◌↔◌, arith, leb, bind_parts,
  require_parts, and_parts, some_injective, leb→le,
}
use sql_server_lab.Js.{codes}
use sql_server_lab.Js.Patterns.{digits_between}
use sql_server_lab.Llama.{Common, Numbers, number_from, read_limited, read_numbers}

-- A number that a control spells in at most five digits, and that lies within limits.
pub record IsLimited (lo hi : ℕ) (text : String) (n : ℕ) : Type 0 where
  pub spelt : n ≡ number_from 0 (codes text)
  pub digits : digits_between 1 4 (codes text) ≡ true
  pub above : lo ≤ n
  pub below : n ≤ hi

read_limited-IsLimited :
    (lo hi : ℕ) (text : String) (n : ℕ) → read_limited lo hi text ≡ some n → IsLimited lo hi text n
unfolding read_limited
read_limited-IsLimited lo hi text n h =
    let first = require_parts (digits_between 1 4 (codes text)) _ n h in
    let second = require_parts _ (some (number_from 0 (codes text))) n first.1 in
    let m = number_from 0 (codes text) in
    let bounds = and_parts (leb lo m) (leb m hi) second.0 in
    let same = some_injective m n second.1 in
    record {
      spelt = sym same;
      digits = first.0;
      above = subst (λ k. lo ≤ k) same (leb→le lo m bounds.0);
      below = subst (λ k. k ≤ hi) same (leb→le m hi bounds.1);
    }

-- The numbers that a form spells, within the limits of the module.
pub record IsWithinLimits (form : Common) (n : Numbers) : Type 0 where
  pub dimension : IsLimited 1 1998 form.dimension n.dimension
  pub port : IsLimited 1024 65535 form.port n.port
  pub timeout : IsLimited 1 600 form.timeout n.timeout
  pub lease : IsLimited 30 3600 form.lease n.lease
  pub context : IsLimited 32 8192 form.context n.context
  pub outlives : n.timeout < n.lease

pub read_numbers-IsWithinLimits :
    (form : Common) (n : Numbers) → read_numbers form ≡ some n → IsWithinLimits form n
unfolding read_numbers
read_numbers-IsWithinLimits form n h =
    let a = bind_parts (read_limited 1 1998 form.dimension) _ n h in
    let b = bind_parts (read_limited 1024 65535 form.port) _ n a.2 in
    let c = bind_parts (read_limited 1 600 form.timeout) _ n b.2 in
    let d = bind_parts (read_limited 30 3600 form.lease) _ n c.2 in
    let e = bind_parts (read_limited 32 8192 form.context) _ n d.2 in
    let f = require_parts (not (leb d.0 c.0)) _ n e.2 in
    let same = some_injective _ n f.1 in
    subst (IsWithinLimits form) same (record {
      dimension = read_limited-IsLimited 1 1998 form.dimension a.0 a.1;
      port = read_limited-IsLimited 1024 65535 form.port b.0 b.1;
      timeout = read_limited-IsLimited 1 600 form.timeout c.0 c.1;
      lease = read_limited-IsLimited 30 3600 form.lease d.0 d.1;
      context = read_limited-IsLimited 32 8192 form.context e.0 e.1;
      outlives = not_leb d.0 c.0 f.0;
    })
  where
    not_leb : (x y : ℕ) → not (leb x y) ≡ true → y < x
    not_leb x y h = ground (arith, h)

IsLimited-read_limited :
    (lo hi : ℕ) (text : String) (n : ℕ) → IsLimited lo hi text n → read_limited lo hi text ≡ some n
unfolding read_limited
IsLimited-read_limited lo hi text n h =
    rw (h.digits, sym h.spelt, le→leb lo n h.above, le→leb n hi h.below) refl
  where
    le→leb : (a b : ℕ) → a ≤ b → leb a b ≡ true
    le→leb a b h = ground (arith, h)

-- The five numbers of a form are read exactly if each is spelt by one to five digits and lies
-- within its limits, and the lease is longer than the start may take; and they are those spelt.
pub read_numbers_iff :
    (form : Common) (n : Numbers) → (read_numbers form ≡ some n) ↔ IsWithinLimits form n
unfolding read_numbers
read_numbers_iff form n = (
  read_numbers-IsWithinLimits form n,
  λ h.
      rw
        (
          IsLimited-read_limited 1 1998 form.dimension n.dimension h.dimension,
          IsLimited-read_limited 1024 65535 form.port n.port h.port,
          IsLimited-read_limited 1 600 form.timeout n.timeout h.timeout,
          IsLimited-read_limited 30 3600 form.lease n.lease h.lease,
          IsLimited-read_limited 32 8192 form.context n.context h.context,
          outlives n.timeout n.lease h.outlives,
        )
        refl,
)
  where
    outlives : (x y : ℕ) → x < y → leb y x ≡ false
    outlives x y h = ground (arith, h)
