-- ===== src/Address/Tests.antt =====
-- 192.168.1.130/25, and the theorems at it.
use server_demo.Common.{ℕ, ◌+◌, ◌-◌, ◌*◌, ◌/◌, ◌%◌, ◌^◌, ◌≡◌, arith}
use server_demo.Address.Prefix.{
  address, broadcast_address, network_address, subnet_mask, count_bytes,
}
use server_demo.Address.Masks.{prefix_addresses}
use server_demo.Address.Ones.{ones, within, count_bytes-ones}

abbrev host : ℕ
host = 3232235906

prefix_addresses_example :
    (broadcast_address host 25
      ≡ address (host / 2 ^ (32 - 25) * 2 ^ (32 - 25) + (2 ^ (32 - 25) - 1)))
    × (network_address host 25 ≡ address (host % 2 ^ (32 - 25)))
    × (subnet_mask 25 ≡ address (2 ^ 32 - 2 ^ (32 - 25)))
prefix_addresses_example = prefix_addresses host 25 (omega arith) (omega arith)

-- 255.255.255.128
count_bytes-ones_example : count_bytes 32 4294967168 ≡ within 32 (ones 32 4294967168)
count_bytes-ones_example = count_bytes-ones 32 32 4294967168 (omega arith)
