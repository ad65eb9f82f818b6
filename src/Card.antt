-- ===== src/Card.antt =====
-- src/daqd/PFP_KX7.cpp, src/daqd/DtFlyP.cpp and src/daqd/UDPFrameServer.cpp: what lies under the
-- acquisition thread. Each card has a thread of its own that fills large buffers by DMA, which
-- `getWords` empties word by word.
mod Tests
pub mod Kx7
pub mod Registers
pub mod Slots
pub mod Dtfly
