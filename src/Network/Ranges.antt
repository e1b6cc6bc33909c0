-- ===== src/Network/Ranges.antt =====
-- The private IPv4 networks of custom_components/panel_assistant/install_network.py by their bounds.
use ha_paneld_home_assistant.Prelude.{ℕ, ◌≤◌, ◌≡◌, ◌↔◌, ◌⊎◌, true, arith}
use ha_paneld_home_assistant.Network.{is_rfc1918}

-- An IPv4 address is taken for a private one exactly if it lies between 10.0.0.0 and
-- 10.255.255.255, between 172.16.0.0 and 172.31.255.255, or between 192.168.0.0 and
-- 192.168.255.255.
pub is_rfc1918-ranges :
    (a : ℕ)
    → (is_rfc1918 a ≡ true) ↔ (
        ((0x0A000000 ≤ a) × (a ≤ 0x0AFFFFFF))
        ⊎ (((0xAC100000 ≤ a) × (a ≤ 0xAC1FFFFF)) ⊎ ((0xC0A80000 ≤ a) × (a ≤ 0xC0A8FFFF))))
unfolding is_rfc1918
is_rfc1918-ranges a = ground arith
