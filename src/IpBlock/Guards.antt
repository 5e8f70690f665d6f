-- ===== src/IpBlock/Guards.antt =====
-- What a block that the guards let through cannot reach.
