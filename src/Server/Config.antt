-- ===== src/Server/Config.antt =====
-- The configuration of a server: `LoadServerConfig` of minet/src/core/IServer.cpp.
use minet_core.Prelude.{
  ℕ, ◌-◌, ◌%◌, ◌^◌, ◌≤◌, ◌<◌, ◌||◌, Option, none, some, ◌≡◌, ◌⊎◌, inl, inr, arith, ltb, ◌==◌,
  if◌then◌else◌, Bool-cases, Bytes, codes,
}
use minet_core.Prelude.Int.{ℤ, pos, negsuc}

-- `ServerConfig`
pub record ServerConfig : Type 0 where
  pub name : Bytes
  pub port : ℕ
  pub threads : ℕ
  pub capacity : ℕ

-- What is used of the library for JSON: `value` with a default, by the type of the default. It throws
-- when the value has another type, which is `none`.
pub record Json (C : Type 0) : Type 0 where
  pub text : C → Bytes → Bytes → Option Bytes
  pub int : C → Bytes → ℤ → Option ℤ
  pub unsigned : C → Bytes → ℕ → Option ℕ

-- The exceptions are `std::runtime_error`, for a port, and the library's.
pub data Loaded : Type 0 where
  loaded : ServerConfig → Loaded
  invalid_port : ℤ → Loaded
  wrong_type : Loaded

-- An `int` as an `unsigned`
abbrev pub to_unsigned : ℤ → ℕ
to_unsigned (pos n) = n % 2 ^ 32
to_unsigned (negsuc n) = 2 ^ 32 - 1 - n % 2 ^ 32

-- `port <= 0 || port > 65535`, and the port as a `uint16_t`
abbrev pub with_port : Bytes → ℕ → ℕ → ℤ → Loaded
with_port name threads capacity (negsuc n) = invalid_port (negsuc n)
with_port name threads capacity (pos n) =
    if n == 0 || ltb 65535 n
    then invalid_port (pos n)
    else loaded (record { name = name; port = n % 2 ^ 16; threads = threads; capacity = capacity })

-- `if (... == 0)` with a default
abbrev pub unless_zero : ℕ → ℕ → ℕ
unless_zero n default = if n == 0 then default else n

abbrev pub read_or {ℓ} : {A : Type ℓ} → Option A → (A → Loaded) → Loaded
read_or none f = wrong_type
read_or (some a) f = f a

-- `LoadServerConfig`, where `hardware` is what `std::thread::hardware_concurrency` gives.
unfoldable pub load_server_config : {C : Type 0} → Json C → ℕ → C → Loaded
load_server_config json hardware c = read_or (json.text c (codes "name") (codes "Basic")) λ name.
    read_or (json.int c (codes "threads") (pos 0)) λ threads.
      read_or (json.unsigned c (codes "capacity") 0) λ capacity.
        read_or (json.int c (codes "port") (pos 5000)) λ port.
          with_port name (unless_zero (to_unsigned threads) hardware) (unless_zero capacity 1024)
            port

-- What a configuration that is used has to keep to.
pub record IsUsable (c : ServerConfig) : Type 0 where
  pub port_low : 1 ≤ c.port
  pub port_high : c.port ≤ 65535
  pub some_thread : 1 ≤ c.threads
  pub some_room : 1 ≤ c.capacity

-- A number that is no port.
abbrev pub IsBadPort : ℤ → Type 0
IsBadPort (pos n) = (n ≡ 0) ⊎ (65535 < n)
IsBadPort (negsuc n) = Unit

-- A configuration or an exception.
pub data Usable : Loaded → Type 0 where
  usable : {c : ServerConfig} → IsUsable c → Usable (loaded c)
  bad_port : {p : ℤ} → IsBadPort p → Usable (invalid_port p)
  bad_type : Usable wrong_type

unless_zero-le : (n d : ℕ) → 1 ≤ d → 1 ≤ unless_zero n d
unless_zero-le n d h = ground arith

with_port-Usable :
    (name : Bytes) (threads capacity : ℕ) (p : ℤ)
    → 1 ≤ threads
    → 1 ≤ capacity
    → Usable (with_port name threads capacity p)
with_port-Usable name threads capacity (negsuc n) t r = bad_port tt
with_port-Usable name threads capacity (pos n) t r = elim (Bool-cases (n == 0 || ltb 65535 n)) [
  | inl e ↦ let bad : (n ≡ 0) ⊎ (65535 < n) = ground arith in rw e (bad_port bad)
  | inr e ↦
      let range : (1 ≤ n) × (n ≤ 65535) = ground arith in
      let same : n % 2 ^ 16 ≡ n = omega (arith, range.0, range.1) in
      rw e (
        usable (record {
          port_low = omega (arith, same, range.0);
          port_high = omega (arith, same, range.1);
          some_thread = t;
          some_room = r;
        }))
]

read_or-Usable {ℓ} :
    {A : Type ℓ} (o : Option A) (f : A → Loaded) → ((a : A) → Usable (f a)) → Usable (read_or o f)
read_or-Usable none f h = bad_type
read_or-Usable (some a) f h = h a

-- Whatever a configuration holds, when it is loaded, the port is from 1 to 65535, and there are threads and room
-- for requests, on hardware with a thread. A port is only rejected outside that range.
pub load_server_config-Usable :
    {C : Type 0} (json : Json C) (hardware : ℕ) (c : C)
    → 1 ≤ hardware
    → Usable (load_server_config json hardware c)
unfolding load_server_config
load_server_config-Usable json hardware c h =
    read_or-Usable (json.text c (codes "name") (codes "Basic")) _ λ name.
      read_or-Usable (json.int c (codes "threads") (pos 0)) _ λ threads.
        read_or-Usable (json.unsigned c (codes "capacity") 0) _ λ capacity.
          read_or-Usable (json.int c (codes "port") (pos 5000)) _ λ port.
            with_port-Usable name (unless_zero (to_unsigned threads) hardware)
              (unless_zero capacity 1024) port (unless_zero-le (to_unsigned threads) hardware h)
              (unless_zero-le capacity 1024 (omega arith))
