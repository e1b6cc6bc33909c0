-- ===== src/Network/Target.antt =====
-- `PinnedPanelTarget` of custom_components/panel_assistant/install_network.py.
use ha_paneld_home_assistant.Client.Address.{PanelAddress}

pub record PinnedPanelTarget : Type 0 where
  pub original : PanelAddress
  pub pinned : PanelAddress
