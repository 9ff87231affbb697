-- ===== src/Tests.antt =====
-- Runs of the modelled code on concrete inputs, and the properties applied to them.
mod Services
mod Transport
mod State
mod Display
mod Codecs
mod Agents
mod Routing
mod Link
